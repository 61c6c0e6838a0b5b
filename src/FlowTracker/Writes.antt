-- ===== src/FlowTracker/Writes.antt =====
-- What a packet writes into the table and into the event buffer of src/flow_tracker.c, field by
-- field.
use stb_e_bpf.Base.{
  ℕ, ◌+◌, ◌%◌, ◌≡◌, refl, inl, inr, Bool, none, some, List, [], if◌then◌else◌, u64_mod, Option, ◌/◌,
  take, strncpy, sym, true, ◌==◌, codes, Bool-cases, ◌∙◌, false, decimal, print_decimal,
}
use stb_e_bpf.Flow.{FlowKey, FlowEvent}
use stb_e_bpf.Flow.{is_multicast}
use stb_e_bpf.Flow.Multicast.{is_multicast_lem}
use stb_e_bpf.PacketParser.Convert.{protocol_name}
use stb_e_bpf.FlowTracker.{claim}
use stb_e_bpf.FlowTracker.Slots.{free_slot}
use stb_e_bpf.FlowTracker.{FlowRecord, flow_event}
use stb_e_bpf.FlowTracker.View.{view, map?}
use stb_e_bpf.FlowTracker.Slots.{start}

-- A record with a packet more: the sums are modulo 2^64.
abbrev pub with_packet : ℕ → ℕ → FlowRecord → FlowRecord
with_packet bytes ts r = record r {
  value = record (r.value) {
    bytes = (r.value.bytes + bytes) % u64_mod;
    packets = (r.value.packets + 1) % u64_mod;
    last_seen_ns = ts;
  };
}

-- The record of a key: the tracked one, else the first that is not in use, made over to the key
-- and its other fields as they were, else none.
abbrev pub record_for : FlowKey → ℕ → List FlowRecord → Option FlowRecord
record_for key now rs = elim (view key rs) [
  | some r ↦ some r
  | none ↦
      map?
        (λ r. record r {
          key = key;
          active = true;
          value = record (r.value) { first_seen_ns = now };
        })
        (free_slot rs)
]

-- The top four bits of the address word are those of a multicast address.
abbrev pub is_group : ℕ → Bool
is_group ip = ip / 0x1000_0000 % 16 == 14

-- The name of a protocol, or else its number.
abbrev pub protocol_text : ℕ → List ℕ
protocol_text p =
    if p == 6
    then codes "TCP"
    else if p == 17
    then codes "UDP"
    else if p == 1
    then codes "ICMP"
    else take 7 (decimal p)

-- The event of a packet, field by field.
abbrev pub packet_event : FlowKey → ℕ → List ℕ → ℕ → FlowEvent
packet_event key bytes probe_id ts = record {
  timestamp_ns = ts;
  probe_id = take 63 probe_id;
  category = codes "network";
  event_type = codes "flow";
  src_ip = key.src_ip;
  dst_ip = key.dst_ip;
  src_port = key.src_port;
  dst_port = key.dst_port;
  protocol = protocol_text key.protocol;
  ip_version = 0;
  tcp_flags = 0;
  payload_type = 0;
  anomaly = 0;
  pkt_len = 0;
  bytes = bytes;
  packets = 1;
  latency_us = 0;
  bandwidth_bps = 0;
  retransmits = 0;
  dup_acks = 0;
  pid = 0;
  service = if is_group key.dst_ip then codes "IPTV" else [];
  details = [];
  tags = if is_group key.dst_ip then codes "iptv,multicast" else [];
}

pub flow_event-fields :
    (key : FlowKey) (bytes : ℕ) (probe_id : List ℕ) (ts : ℕ)
    → flow_event key bytes probe_id ts ≡ packet_event key bytes probe_id ts
unfolding flow_event protocol_name print_decimal strncpy codes
flow_event-fields key bytes probe_id ts = elim (Bool-cases (is_multicast key.dst_ip)) [
  | inl group ↦
      let g : is_group key.dst_ip ≡ true = sym (is_multicast_lem key.dst_ip) ∙ group in
      rw (group, g) refl
  | inr single ↦
      let g : is_group key.dst_ip ≡ false = sym (is_multicast_lem key.dst_ip) ∙ single in
      rw (single, g) refl
]

pub start-record_for :
    (key : FlowKey) (now : ℕ) (rs : List FlowRecord) → start key now rs ≡ record_for key now rs
unfolding start claim
start-record_for key now rs = refl
