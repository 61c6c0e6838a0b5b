-- ===== src/Probe/Sources.antt =====
-- `read_bpf_events` and `read_raw_packets` of src/main.c: the two ways from the kernel into the
-- flow tracker.
use stb_e_bpf.Base.{
  ◌||◌, ℕ, zero, suc, ◌+◌, ◌*◌, Bool, Option, none, some, List, [], ◌∷◌, ◌==◌, if◌then◌else◌, ◌>>=◌,
  length, get_or, drop, le16, le32,
}
use stb_e_bpf.PacketParser.{PktEvent, zero_pkt, packet_parse_raw}
use stb_e_bpf.FlowTracker.{FlowTracker, flow_tracker_update_single}
use stb_e_bpf.BpfLoader.{Slot, Status}
use stb_e_bpf.BpfLoader.Perf.{
  Ring, Reading, done, outside, running, event_size, bpf_loader_read_perf_events,
}
use stb_e_bpf.Probe.Capture.{pkt_key}

-- The cast of forty bytes to `struct pkt_event_t`.
unfoldable pub decode_pkt : List ℕ → PktEvent
decode_pkt s = record {
  timestamp_ns = le32 s 0 + le32 s 4 * 0x1_0000_0000;
  src_ip = le32 s 8;
  dst_ip = le32 s 12;
  src_port = le16 s 16;
  dst_port = le16 s 18;
  protocol = get_or s 20 0;
  tcp_flags = get_or s 21 0;
  pkt_len = le16 s 22;
  ifindex = le32 s 24;
  pid = le32 s 28;
  ip_version = get_or s 32 0;
  payload_type = get_or s 33 0;
  latency_us = le16 s 36;
}

-- The two readings of the clock in one update.
pub record Ticks : Type 0 where
  pub updated : ℕ
  pub claimed : ℕ

-- The loop over the events of the buffer, with the count of those that are taken.
unfoldable pub count_events : List ℕ → (ℕ → Ticks) → ℕ → List ℕ → FlowTracker → ℕ → FlowTracker × ℕ
count_events probe_id clock zero buf ft count = (ft, count)
count_events probe_id clock (suc left) buf ft count =
    let pkt = decode_pkt buf in
    let t = clock left in
    let skip = pkt.timestamp_ns == 0 in
    let ft' =
      flow_tracker_update_single ft (pkt_key pkt) pkt.pkt_len probe_id t.updated t.claimed in
    count_events probe_id clock left (drop event_size buf) (if skip then ft else ft')
      (if skip then count else count + 1)

abbrev pub perf_buf_size : ℕ
perf_buf_size = 32 * 1024

-- What `read_bpf_events` leaves: the ring buffers, the tracker, and its return value.
pub record Polled : Type 0 where
  pub cpus : List (Slot × Ring)
  pub tracker : FlowTracker
  pub count : ℕ

-- `read_bpf_events`. `clock` gives the readings for each event, counted from the last.
unfoldable pub read_bpf_events :
    ℕ → List ℕ → (ℕ → Ticks) → Status → List (Slot × Ring) → FlowTracker → Reading Polled
read_bpf_events fuel probe_id clock status cpus ft = elim status.perf_map_fd [
  | none ↦ done (record { cpus = cpus; tracker = ft; count = 0 })
  | some map_fd ↦ elim (bpf_loader_read_perf_events status.nr_cpus fuel perf_buf_size cpus) [
    | outside ↦ outside
    | running ↦ running
    | done (cpus', b) ↦
        let (ft', count) = count_events probe_id clock b.nr_events b.out ft 0 in
        if length b.out == 0 || b.nr_events == 0
        then done (record { cpus = cpus'; tracker = ft; count = 0 })
        else done (record { cpus = cpus'; tracker = ft'; count = count })
  ]
]

-- What `recvfrom` hands over, and the readings of the clock while it is worked on; `stop` is
-- `g_stop` as the loop's test finds it. No frame left is a call that fails.
pub record Frame : Type 0 where
  pub stop : Bool
  pub pkt_buf : List ℕ
  pub len : ℕ
  pub received : ℕ
  pub updated : ℕ
  pub claimed : ℕ

-- The event with which the parser starts: unlike the main loop, no length is set.
abbrev pub raw_pkt : ℕ → PktEvent
raw_pkt received = record zero_pkt { timestamp_ns = received }

-- `read_raw_packets`: the tracker and the count of packets; `none` is a read outside the buffer.
unfoldable pub read_raw_from : List ℕ → List Frame → FlowTracker → ℕ → Option (FlowTracker × ℕ)
read_raw_from probe_id [] ft pkt_count = some (ft, pkt_count)
read_raw_from probe_id (f ∷ fs) ft pkt_count =
    if f.stop || f.len == 0
    then some (ft, pkt_count)
    else (packet_parse_raw f.pkt_buf f.len (raw_pkt f.received) >>= λ parsed.
        let (ret, pkt) = parsed in
        let key = record (pkt_key pkt) { ip_version = 0 } in
        let drop_it = ret == 0 in
        let ft' = flow_tracker_update_single ft key pkt.pkt_len probe_id f.updated f.claimed in
        read_raw_from probe_id fs (if drop_it then ft else ft')
          (if drop_it then pkt_count else pkt_count + 1))

unfoldable pub read_raw_packets : List ℕ → List Frame → FlowTracker → Option (FlowTracker × ℕ)
unfolding read_raw_from
read_raw_packets probe_id frames ft = read_raw_from probe_id frames ft 0
