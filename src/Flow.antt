-- ===== src/Flow.antt =====
-- The data that the probe's modules share: include/common.h. A `char` array is the list of the
-- bytes before its terminator; the padding of a key is zero in every key that the code builds.
pub mod Key
pub mod Multicast
use stb_e_bpf.Base.{
  ℕ, Bool, ◌≡◌, ◌+◌, ◌*◌, ◌/◌, ◌%◌, ◌==◌, ◌&&◌, List, [], ◌∷◌, ◌++◌, bit_and, codes, decimal,
  strncpy, le32, get_or,
}
use Prim.Native.String.{String}

abbrev pub cat_network : List ℕ
cat_network = codes "network"

abbrev pub cat_iptv : List ℕ
cat_iptv = codes "iptv"

abbrev pub cat_dns : List ℕ
cat_dns = codes "dns"

abbrev pub cat_icmp : List ℕ
cat_icmp = codes "icmp"

abbrev pub evt_flow : List ℕ
evt_flow = codes "flow"

abbrev pub evt_connect : List ℕ
evt_connect = codes "connect"

abbrev pub evt_disconnect : List ℕ
evt_disconnect = codes "disconnect"

abbrev pub evt_dns_query : List ℕ
evt_dns_query = codes "dns_query"

abbrev pub evt_dns_reply : List ℕ
evt_dns_reply = codes "dns_reply"

abbrev pub evt_icmp_echo : List ℕ
evt_icmp_echo = codes "icmp_echo"

abbrev pub payload_http_req : ℕ
payload_http_req = 1

abbrev pub payload_http_resp : ℕ
payload_http_resp = 2

abbrev pub tcp_flag_fin : ℕ
tcp_flag_fin = 0x01

abbrev pub tcp_flag_syn : ℕ
tcp_flag_syn = 0x02

abbrev pub tcp_flag_rst : ℕ
tcp_flag_rst = 0x04

abbrev pub tcp_flag_psh : ℕ
tcp_flag_psh = 0x08

abbrev pub tcp_flag_ack : ℕ
tcp_flag_ack = 0x10

abbrev pub tcp_flag_urg : ℕ
tcp_flag_urg = 0x20

abbrev pub port_dns : ℕ
port_dns = 53

abbrev pub port_http : ℕ
port_http = 80

abbrev pub port_https : ℕ
port_https = 443

abbrev pub ipproto_icmp : ℕ
ipproto_icmp = 1

abbrev pub ipproto_tcp : ℕ
ipproto_tcp = 6

abbrev pub ipproto_udp : ℕ
ipproto_udp = 17

abbrev pub ipproto_icmpv6 : ℕ
ipproto_icmpv6 = 58

-- `struct flow_key_t`.
pub record FlowKey : Type 0 where
  pub src_ip : ℕ
  pub dst_ip : ℕ
  pub src_port : ℕ
  pub dst_port : ℕ
  pub protocol : ℕ
  pub ip_version : ℕ

-- `memcmp(a, b, sizeof(*a)) == 0`.
unfoldable pub key_eq : FlowKey → FlowKey → Bool
key_eq a b =
    a.src_ip == b.src_ip
    && a.dst_ip == b.dst_ip
    && a.src_port == b.src_port
    && a.dst_port == b.dst_port
    && a.protocol == b.protocol
    && a.ip_version == b.ip_version

-- `struct flow_value_t`, without the fields that no code reads or writes (pid, comm, the packet
-- sizes, tcp_flags_seen and out_of_order).
pub record FlowValue : Type 0 where
  pub bytes : ℕ
  pub packets : ℕ
  pub first_seen_ns : ℕ
  pub last_seen_ns : ℕ
  pub retransmits : ℕ
  pub dup_acks : ℕ
  pub seq_expected : ℕ

-- `struct flow_event_t`.
pub record FlowEvent : Type 0 where
  pub timestamp_ns : ℕ
  pub probe_id : List ℕ
  pub category : List ℕ
  pub event_type : List ℕ
  pub src_ip : ℕ
  pub dst_ip : ℕ
  pub src_port : ℕ
  pub dst_port : ℕ
  pub protocol : List ℕ
  pub ip_version : ℕ
  pub tcp_flags : ℕ
  pub payload_type : ℕ
  pub anomaly : ℕ
  pub pkt_len : ℕ
  pub bytes : ℕ
  pub packets : ℕ
  pub latency_us : ℕ
  pub bandwidth_bps : ℕ
  pub retransmits : ℕ
  pub dup_acks : ℕ
  pub pid : ℕ
  pub service : List ℕ
  pub details : List ℕ
  pub tags : List ℕ

-- `memset(flow, 0, sizeof(*flow))` and `= {0}`.
abbrev pub zero_event : FlowEvent
zero_event = record {
  timestamp_ns = 0;
  probe_id = [];
  category = [];
  event_type = [];
  src_ip = 0;
  dst_ip = 0;
  src_port = 0;
  dst_port = 0;
  protocol = [];
  ip_version = 0;
  tcp_flags = 0;
  payload_type = 0;
  anomaly = 0;
  pkt_len = 0;
  bytes = 0;
  packets = 0;
  latency_us = 0;
  bandwidth_bps = 0;
  retransmits = 0;
  dup_acks = 0;
  pid = 0;
  service = [];
  details = [];
  tags = [];
}

-- `struct proc_net_entry`.
pub record ProcNetEntry : Type 0 where
  pub local_ip : ℕ
  pub local_port : ℕ
  pub remote_ip : ℕ
  pub remote_port : ℕ
  pub state : ℕ
  pub protocol : ℕ
  pub ip_version : ℕ
  pub rx_queue : ℕ
  pub tx_queue : ℕ
  pub uid : ℕ
  pub inode : ℕ

-- `IS_MULTICAST(ip)`.
unfoldable pub is_multicast : ℕ → Bool
is_multicast ip = bit_and ip 0xF000_0000 == 0xE000_0000

-- `ip_to_str`: the bytes of `ip` as they lie in memory.
unfoldable pub ip_to_str : ℕ → ℕ → List ℕ
ip_to_str ip size = strncpy size (
    decimal (ip % 0x100)
    ++ (b'.' ∷ decimal (ip / 0x100 % 0x100)
        ++ (b'.' ∷ decimal (ip / 0x1_0000 % 0x100) ++ (b'.' ∷ decimal (ip / 0x100_0000 % 0x100)))))
