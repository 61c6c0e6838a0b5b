-- ===== src/Probe/Capture.antt =====
-- The body of the capture loop of src/main.c: what becomes of one frame.
pub mod Safety
pub mod Plain
mod Checks
use stb_e_bpf.Base.{
  leb, get_elem?, ◌*◌, ◌/◌, ℕ, ◌+◌, ◌-◌, ◌%◌, Bool, ◌&&◌, ◌||◌, Option, none, some, List, ◌++◌, ltb,
  ◌==◌, if◌then◌else◌, ◌>>=◌, drop, u16_mod, strncpy, codes, decimal,
}
use stb_e_bpf.Flow.{FlowKey, FlowEvent, ipproto_tcp, ipproto_udp, port_dns, port_http}
use stb_e_bpf.PacketParser.{PktEvent, zero_pkt, packet_parse_raw}
use stb_e_bpf.PacketParser.Convert.{packet_to_flow_event}
use stb_e_bpf.FlowTracker.{FlowTracker, flow_tracker_update_single}
use stb_e_bpf.FlowTracker.Retransmit.{AckTable, Checked, flow_tracker_check_tcp_retransmit}
use stb_e_bpf.Anomaly.{AnomalyDetector, anomaly_check_flow}
use stb_e_bpf.Probe.Dns.{parse_dns_payload}
use stb_e_bpf.Probe.Http.{parse_http_payload}
use stb_e_bpf.Probe.Sequence.{TcpInfo, eth_offset, extract_tcp_seq_num}

-- What the loop keeps: the tracker, the static variables of the retransmission check, the detector.
pub record Probe : Type 0 where
  pub tracker : FlowTracker
  pub acks : AckTable
  pub anomaly : AnomalyDetector

-- The readings of the clock, in the order in which they are made.
pub record Clock : Type 0 where
  pub received : ℕ
  pub updated : ℕ
  pub claimed : ℕ
  pub checked : ℕ
  pub judged : ℕ

abbrev pub pkt_key : PktEvent → FlowKey
pkt_key pkt = record {
  src_ip = pkt.src_ip;
  dst_ip = pkt.dst_ip;
  src_port = pkt.src_port;
  dst_port = pkt.dst_port;
  protocol = pkt.protocol;
  ip_version = pkt.ip_version;
}

abbrev pub carries_dns : PktEvent → ℕ → Bool
carries_dns pkt len =
    pkt.protocol == ipproto_udp
    && (pkt.src_port == port_dns || pkt.dst_port == port_dns)
    && ltb 42 len

-- The DNS part: the payload behind Ethernet, IP and UDP headers of 14 or 18, 20 and 8 bytes.
unfoldable pub enrich_dns : List ℕ → ℕ → PktEvent → FlowEvent → Option FlowEvent
enrich_dns pkt_buf len pkt flow =
    if carries_dns pkt len
    then (eth_offset pkt_buf len >>= λ eth_hdr_len.
        let dns_offset = eth_hdr_len + 20 + 8 in
        if ltb dns_offset len
        then parse_dns_payload (drop dns_offset pkt_buf) (len - dns_offset) flow
            (pkt.src_port == port_dns)
        else some flow)
    else some flow

abbrev pub carries_http : PktEvent → ℕ → Bool
carries_http pkt len =
    pkt.protocol == ipproto_tcp
    && (pkt.src_port == port_http || pkt.dst_port == port_http)
    && ltb 54 len

-- The HTTP part, with the header length of the TCP segment.
unfoldable pub enrich_http : List ℕ → ℕ → PktEvent → FlowEvent → Option FlowEvent
enrich_http pkt_buf len pkt flow =
    if carries_http pkt len
    then (eth_offset pkt_buf len >>= λ eth_hdr_len.
        let tcp_offset = if pkt.ip_version == 6 then eth_hdr_len + 40 else eth_hdr_len + 20 in
        if leb (tcp_offset + 20) len
        then (get_elem? pkt_buf (tcp_offset + 12) >>= λ b.
            let http_offset = tcp_offset + b / 16 % 16 * 4 in
            if ltb http_offset len
            then parse_http_payload (drop http_offset pkt_buf) (len - http_offset) flow
                (pkt.src_port == port_http)
            else some flow)
        else some flow)
    else some flow

-- What a finding writes to the local event.
unfoldable pub mark_retransmit : ℕ → Checked → FlowEvent → FlowEvent
mark_retransmit seq_num c flow =
    let again : FlowEvent =
      if c.is_retransmit
      then record flow {
        retransmits = 1;
        event_type = strncpy 16 (codes "retransmit");
        tags = strncpy 64 (codes "tcp,retransmit");
        details = strncpy 128 (codes "tcp_retransmit:seq=" ++ decimal seq_num);
      }
      else flow in
    if c.is_dup_ack then record again { dup_acks = 1 } else again

-- The retransmission part.
unfoldable pub check_retransmit :
    List ℕ
    → ℕ
    → PktEvent
    → ℕ
    → FlowTracker × AckTable
    → FlowEvent
    → Option (FlowTracker × AckTable × FlowEvent)
check_retransmit pkt_buf len pkt now (tracker, acks) flow =
    if pkt.protocol == ipproto_tcp
    then (extract_tcp_seq_num pkt_buf len pkt >>= λ info. elim info [
      | none ↦ some (tracker, acks, flow)
      | some i ↦
          let c =
            flow_tracker_check_tcp_retransmit tracker acks (pkt_key pkt) i.seq_num i.payload_len
              i.tcp_flags now in
          some (c.tracker, c.acks, mark_retransmit i.seq_num c flow)
    ])
    else some (tracker, acks, flow)

-- The event with which the parser starts.
abbrev pub fresh_pkt : ℕ → ℕ → PktEvent
fresh_pkt len received = record zero_pkt { timestamp_ns = received; pkt_len = len % u16_mod }

-- What follows an accepted frame.
unfoldable pub process_packet : List ℕ → List ℕ → ℕ → Clock → PktEvent → Probe → Option Probe
process_packet probe_id pkt_buf len clock pkt p = do
  named ← enrich_dns pkt_buf len pkt (packet_to_flow_event pkt probe_id)
  flow ← enrich_http pkt_buf len pkt named
  let tracker =
      flow_tracker_update_single p.tracker (pkt_key pkt) pkt.pkt_len probe_id clock.updated
        clock.claimed
  l ← check_retransmit pkt_buf len pkt clock.checked (tracker, p.acks) flow
  let (verdict, anomaly, flow_check) =
      anomaly_check_flow p.anomaly (packet_to_flow_event pkt probe_id) clock.judged
  some (record { tracker = l.0; acks = l.1; anomaly = anomaly })

-- One frame of `len` bytes in the buffer; `none` is a read outside it.
unfoldable pub capture_packet : List ℕ → List ℕ → ℕ → Clock → Probe → Option Probe
capture_packet probe_id pkt_buf len clock p = do
  parsed ← packet_parse_raw pkt_buf len (fresh_pkt len clock.received)
  let (ret, pkt) = parsed
  if ret == 0 then some p else process_packet probe_id pkt_buf len clock pkt p
