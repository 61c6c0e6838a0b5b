-- ===== src/Probe/Capture/Safety.antt =====
-- The body of the capture loop reads only inside the buffer and keeps the tracker valid.
use stb_e_bpf.Base.{
  ltb, ◌*◌, ◌/◌, ◌%◌, ℕ, ◌+◌, ◌-◌, ◌≤◌, ◌≡◌, refl, inl, inr, ◌&&◌, Option, none, some, List, arith,
  leb, ◌==◌, if◌then◌else◌, Bool-cases, Option-cases, length, drop, length-drop, get_elem?-some,
}
use stb_e_bpf.Flow.{FlowEvent}
use stb_e_bpf.PacketParser.{PktEvent}
use stb_e_bpf.PacketParser.Convert.{packet_to_flow_event}
use stb_e_bpf.PacketParser.Safety.{packet_parse_raw-Returns}
use stb_e_bpf.FlowTracker.{FlowTracker, flow_tracker_update_single}
use stb_e_bpf.FlowTracker.Retransmit.{AckTable, flow_tracker_check_tcp_retransmit}
use stb_e_bpf.FlowTracker.Invariant.{IsValid}
use stb_e_bpf.FlowTracker.Runs.{update_single-IsValid, check-IsValid}
use stb_e_bpf.Probe.Dns.Safety.{parse_dns_payload-returns}
use stb_e_bpf.Probe.Http.{parse_http_payload-returns}
use stb_e_bpf.Probe.Sequence.{TcpInfo, eth_offset}
use stb_e_bpf.Probe.Sequence.Header.{extract-returns}
use stb_e_bpf.Probe.Capture.{
  Probe, Clock, pkt_key, enrich_dns, carries_http, enrich_http, check_retransmit, mark_retransmit,
  fresh_pkt, process_packet, capture_packet,
}

-- A probe whose tracker is valid.
abbrev Keeps : Option Probe → Type 0
Keeps none = ⊥
Keeps (some p) = IsValid p.tracker

abbrev Enriched : Option FlowEvent → Type 0
Enriched none = ⊥
Enriched (some flow) = Unit

abbrev Checks : Option (FlowTracker × AckTable × FlowEvent) → Type 0
Checks none = ⊥
Checks (some l) = IsValid l.0

-- The retransmission part, behind its read.
abbrev retransmit_of :
    PktEvent
    → ℕ
    → FlowTracker × AckTable
    → FlowEvent
    → Option TcpInfo
    → Option (FlowTracker × AckTable × FlowEvent)
retransmit_of pkt now (tracker, acks) flow none = some (tracker, acks, flow)
retransmit_of pkt now (tracker, acks) flow (some i) =
    let c =
      flow_tracker_check_tcp_retransmit tracker acks (pkt_key pkt) i.seq_num i.payload_len
        i.tcp_flags now in
    some (c.tracker, c.acks, mark_retransmit i.seq_num c flow)

module _ (pkt_buf : List ℕ) (len : ℕ) (fits : len ≤ length pkt_buf) where
  eth_offset-some : (n : ℕ) × (eth_offset pkt_buf len ≡ some n)
  unfolding eth_offset
  eth_offset-some = elim (Bool-cases (leb 16 len)) [
    | inl long ↦
        let (hi, e) = get_elem?-some pkt_buf 12 (ground arith) in
        let (lo, f) = get_elem?-some pkt_buf 13 (ground arith) in
        (if hi == 0x81 && lo == 0 then 18 else 14, rw (long, e, f) refl)
    | inr short ↦ (14, rw short refl)
  ]

  enrich_dns-Enriched :
      (pkt : PktEvent) (flow : FlowEvent) → Enriched (enrich_dns pkt_buf len pkt flow)
  unfolding enrich_dns
  enrich_dns-Enriched pkt flow =
      let (eth, e) = eth_offset-some in
      let rest : len - (eth + 20 + 8) ≤ length (drop (eth + 20 + 8) pkt_buf) =
        omega (arith, length-drop (eth + 20 + 8) pkt_buf) in
      let (flow', f) =
        parse_dns_payload-returns (drop (eth + 20 + 8) pkt_buf) (len - (eth + 20 + 8)) rest flow
          (pkt.src_port == 53) in
      ground arith

  enrich_http-Enriched :
      (pkt : PktEvent) (flow : FlowEvent) → Enriched (enrich_http pkt_buf len pkt flow)
  unfolding enrich_http
  enrich_http-Enriched pkt flow =
      let (eth, e) = eth_offset-some in
      let off = if pkt.ip_version == 6 then eth + 40 else eth + 20 in
      elim (Bool-cases (carries_http pkt len)) [
        | inr other ↦ rw other tt
        | inl http ↦ elim (Bool-cases (leb (off + 20) len)) [
          | inr short ↦ rw (http, e) (rw short tt)
          | inl long ↦
              let (b, f) = get_elem?-some pkt_buf (off + 12) (ground arith) in
              let at = off + b / 16 % 16 * 4 in
              let (flow', g) =
                parse_http_payload-returns (drop at pkt_buf) (len - at)
                  (omega (arith, length-drop at pkt_buf)) flow (pkt.src_port == 80) in
              elim (Bool-cases (ltb at len)) [
                | inr none_left ↦ rw (http, e) (rw (long, f) (rw none_left tt))
                | inl some_left ↦ rw (http, e) (rw (long, f) (rw (some_left, g) tt))
              ]
        ]
      ]

  check_retransmit-Checks :
      (pkt : PktEvent) (now : ℕ) (tracker : FlowTracker) (acks : AckTable) (flow : FlowEvent)
      → IsValid tracker
      → Checks (check_retransmit pkt_buf len pkt now (tracker, acks) flow)
  unfolding check_retransmit
  check_retransmit-Checks pkt now tracker acks flow v =
      let (info, e) = extract-returns pkt_buf len fits pkt in
      elim (Bool-cases (pkt.protocol == 6)) [
        | inr other ↦ rw other v
        | inl tcp ↦ rw (tcp, e) (found info)
      ]
    where
      found : (info : Option TcpInfo) → Checks (retransmit_of pkt now (tracker, acks) flow info)
      found none = v
      found (some i) =
          check-IsValid tracker acks (pkt_key pkt) i.seq_num i.payload_len i.tcp_flags now v

  process_packet-Keeps :
      (probe_id : List ℕ) (clock : Clock) (pkt : PktEvent) (p : Probe)
      → IsValid p.tracker
      → Keeps (process_packet probe_id pkt_buf len clock pkt p)
  unfolding process_packet
  process_packet-Keeps probe_id clock pkt p v =
      let dns = enrich_dns-Enriched pkt (packet_to_flow_event pkt probe_id) in
      let tracker =
        flow_tracker_update_single p.tracker (pkt_key pkt) pkt.pkt_len probe_id clock.updated
          clock.claimed in
      let kept =
        update_single-IsValid p.tracker (pkt_key pkt) pkt.pkt_len probe_id clock.updated
          clock.claimed v in
      elim (Option-cases (enrich_dns pkt_buf len pkt (packet_to_flow_event pkt probe_id))) [
        | inl e ↦ absurd (ground arith)
        | inr (named, e) ↦
            let http = enrich_http-Enriched pkt named in
            elim (Option-cases (enrich_http pkt_buf len pkt named)) [
              | inl e' ↦ absurd (ground arith)
              | inr (flow, e') ↦
                  let checked =
                    check_retransmit-Checks pkt clock.checked tracker p.acks flow kept in
                  elim (Option-cases
                    (check_retransmit pkt_buf len pkt clock.checked (tracker, p.acks) flow)) [
                      | inl f ↦ absurd (ground arith)
                      | inr (l, f) ↦ rw (e, e', f) (ground arith)
                    ]
            ]
      ]

  -- If the receive buffer holds at least `len` bytes, then the loop's body makes no read outside
  -- it, through the packet parser, the DNS, HTTP and TCP readers, for any frame; and a valid
  -- tracker stays valid.
  pub capture_packet-Safe :
      (probe_id : List ℕ) (clock : Clock) (p : Probe)
      → IsValid p.tracker
      → (p' : Probe) × (capture_packet probe_id pkt_buf len clock p ≡ some p') × IsValid p'.tracker
  unfolding capture_packet
  capture_packet-Safe probe_id clock p v =
      let (ret, pkt, parsed, flag) =
        packet_parse_raw-Returns pkt_buf len fits (fresh_pkt len clock.received) in
      let kept = process_packet-Keeps probe_id clock pkt p v in
      elim (Bool-cases (ret == 0)) [
        | inl dropped ↦ (p, rw parsed (rw dropped refl), v)
        | inr taken ↦ elim (Option-cases (process_packet probe_id pkt_buf len clock pkt p)) [
          | inl e ↦ absurd (ground arith)
          | inr (p', e) ↦ (p', rw parsed (rw taken e), ground arith)
        ]
      ]
