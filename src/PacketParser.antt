-- ===== src/PacketParser.antt =====
-- src/packet_parser.c: `packet_parse_raw` reads an Ethernet frame into a packet event, and
-- the child Convert turns
-- a packet event into a flow event. A frame is the list of the bytes
-- of the receive buffer; `len` is what the receive call returned. A read outside the buffer is
-- `none`. The machine is little-endian, as the ARMv7 target is.
pub mod Safety
pub mod Vlan
pub mod Transport
pub mod Fields
pub mod Convert
pub mod Classify
mod Checks
use stb_e_bpf.Base.{
  ℕ, ◌+◌, ◌*◌, ◌%◌, ◌/◌, ◌≡◌, Bool, true, false, not, ◌&&◌, ◌||◌, Option, none, some, List, [], ◌∷◌,
  ltb, leb, ◌==◌, if◌then◌else◌, ◌>>=◌, get_elem?, get_or, slice, be16, le32, has_bits, bit_or,
  bit_xor, strncpy, print_decimal, codes,
}
use stb_e_bpf.Flow.{
  FlowEvent, zero_event, cat_network, cat_iptv, cat_dns, cat_icmp, evt_flow, evt_connect,
  evt_disconnect, evt_dns_query, evt_dns_reply, evt_icmp_echo, payload_http_req, payload_http_resp,
  tcp_flag_fin, tcp_flag_syn, tcp_flag_rst, tcp_flag_psh, tcp_flag_ack, tcp_flag_urg, port_dns,
  port_http, port_https, ipproto_icmp, ipproto_tcp, ipproto_udp, ipproto_icmpv6, is_multicast,
}

-- `struct pkt_event_t`.
pub record PktEvent : Type 0 where
  pub timestamp_ns : ℕ
  pub src_ip : ℕ
  pub dst_ip : ℕ
  pub src_port : ℕ
  pub dst_port : ℕ
  pub protocol : ℕ
  pub tcp_flags : ℕ
  pub pkt_len : ℕ
  pub ifindex : ℕ
  pub pid : ℕ
  pub ip_version : ℕ
  pub payload_type : ℕ
  pub latency_us : ℕ

-- `struct pkt_event_t pkt = {0}`.
abbrev pub zero_pkt : PktEvent
zero_pkt = record {
  timestamp_ns = 0;
  src_ip = 0;
  dst_ip = 0;
  src_port = 0;
  dst_port = 0;
  protocol = 0;
  tcp_flags = 0;
  pkt_len = 0;
  ifindex = 0;
  pid = 0;
  ip_version = 0;
  payload_type = 0;
  latency_us = 0;
}

abbrev pub eth_p_ip : ℕ
eth_p_ip = 0x0800

abbrev pub eth_p_ipv6 : ℕ
eth_p_ipv6 = 0x86DD

abbrev pub eth_p_8021q : ℕ
eth_p_8021q = 0x8100

-- What the parser hands back: its return value and the event as it stands then.
abbrev pub Parsed : Type 0
Parsed = Option (ℕ × PktEvent)

-- `if (bit) flags |= mask`.
unfoldable pub set_flag : Bool → ℕ → ℕ → ℕ
set_flag bit mask flags = if bit then bit_or flags mask else flags

-- The flags that the IPv4 branch collects from byte 13 of `struct tcphdr`, whose one-bit fields
-- `fin`, `syn`, `rst`, `psh`, `ack` and `urg` are its lowest bits, in the order of its tests.
unfoldable pub ipv4_tcp_flags : ℕ → ℕ
unfolding set_flag has_bits
ipv4_tcp_flags b = set_flag (has_bits b 0x20) tcp_flag_urg (
    set_flag (has_bits b 0x08) tcp_flag_psh (
      set_flag (has_bits b 0x04) tcp_flag_rst (
        set_flag (has_bits b 0x01) tcp_flag_fin
          (set_flag (has_bits b 0x10) tcp_flag_ack (set_flag (has_bits b 0x02) tcp_flag_syn 0)))))

-- The IPv6 branch reads neither PSH nor URG.
unfoldable pub ipv6_tcp_flags : ℕ → ℕ
unfolding set_flag has_bits
ipv6_tcp_flags b = set_flag (has_bits b 0x04) tcp_flag_rst (
    set_flag (has_bits b 0x01) tcp_flag_fin
      (set_flag (has_bits b 0x10) tcp_flag_ack (set_flag (has_bits b 0x02) tcp_flag_syn 0)))

-- The transport part of the IPv4 branch, from `transport_offset` on.
unfoldable pub parse_ipv4_transport : List ℕ → ℕ → ℕ → PktEvent → Parsed
parse_ipv4_transport frame len off evt =
    if evt.protocol == ipproto_tcp
    then (if ltb len (off + 20) then some (0, evt) else do
      tcp ← slice frame off 20
      some (
        1,
        record evt {
          src_port = be16 tcp 0;
          dst_port = be16 tcp 2;
          tcp_flags = ipv4_tcp_flags (get_or tcp 13 0);
        },
      ))
    else if evt.protocol == ipproto_udp
    then (if ltb len (off + 8) then some (0, evt) else do
      udp ← slice frame off 8
      some (1, record evt { src_port = be16 udp 0; dst_port = be16 udp 2 }))
    else if evt.protocol == ipproto_icmp
    then (if ltb len (off + 8) then some (0, evt) else do
      icmp ← slice frame off 8
      some (1, record evt { src_port = 0; dst_port = get_or icmp 0 0 }))
    else some (1, record evt { src_port = 0; dst_port = 0 })

-- The IPv4 branch: `eth_offset` is where the IP header starts.
unfoldable pub parse_ipv4 : List ℕ → ℕ → ℕ → PktEvent → Parsed
parse_ipv4 frame len eth_offset evt = if ltb len (eth_offset + 20) then some (0, evt) else do
  ip ← slice frame eth_offset 20
  let filled = record evt {
    src_ip = le32 ip 12;
    dst_ip = le32 ip 16;
    protocol = get_or ip 9 0;
    ip_version = 4;
  }
  let ip_hdr_len = get_or ip 0 0 % 16 * 4
  if not (be16 ip 6 % 0x2000 == 0)
      then some (0, evt)
      else parse_ipv4_transport frame len (eth_offset + ip_hdr_len) filled

-- The four words of an IPv6 address, folded by exclusive or.
unfoldable pub fold_ipv6 : List ℕ → ℕ → ℕ
fold_ipv6 ip6 i =
    bit_xor (bit_xor (bit_xor (le32 ip6 i) (le32 ip6 (i + 4))) (le32 ip6 (i + 8)))
      (le32 ip6 (i + 12))

unfoldable pub parse_ipv6_transport : List ℕ → ℕ → ℕ → PktEvent → Parsed
parse_ipv6_transport frame len off evt =
    if evt.protocol == ipproto_tcp
    then (if ltb len (off + 20) then some (0, evt) else do
      tcp ← slice frame off 20
      some (
        1,
        record evt {
          src_port = be16 tcp 0;
          dst_port = be16 tcp 2;
          tcp_flags = ipv6_tcp_flags (get_or tcp 13 0);
        },
      ))
    else if evt.protocol == ipproto_udp
    then (if ltb len (off + 8) then some (0, evt) else do
      udp ← slice frame off 8
      some (1, record evt { src_port = be16 udp 0; dst_port = be16 udp 2 }))
    else if evt.protocol == ipproto_icmpv6
    then some (1, record evt { src_port = 0; dst_port = 0 })
    else some (1, record evt { src_port = 0; dst_port = 0 })

unfoldable pub parse_ipv6 : List ℕ → ℕ → ℕ → PktEvent → Parsed
parse_ipv6 frame len eth_offset evt = if ltb len (eth_offset + 40) then some (0, evt) else do
  ip6 ← slice frame eth_offset 40
  parse_ipv6_transport frame len (eth_offset + 40) (record evt {
    src_ip = fold_ipv6 ip6 8;
    dst_ip = fold_ipv6 ip6 24;
    protocol = get_or ip6 6 0;
    ip_version = 6;
  })

-- The choice by EtherType.
unfoldable pub parse_network : List ℕ → ℕ → ℕ → ℕ → PktEvent → Parsed
parse_network frame len eth_proto eth_offset evt =
    if eth_proto == eth_p_ip
    then parse_ipv4 frame len eth_offset evt
    else if eth_proto == eth_p_ipv6
    then parse_ipv6 frame len eth_offset evt
    else some (0, evt)

-- `packet_parse_raw`. Its pointers are not null: both callers pass the addresses of locals.
unfoldable pub packet_parse_raw : List ℕ → ℕ → PktEvent → Parsed
packet_parse_raw frame len evt = if ltb len 14 then some (0, evt) else do
  hi ← get_elem? frame 12
  lo ← get_elem? frame 13
  let eth_proto = hi * 0x100 + lo
  if eth_proto == eth_p_8021q
      then (if ltb len 18 then some (0, evt) else do
        hi' ← get_elem? frame 16
        lo' ← get_elem? frame 17
        parse_network frame len (hi' * 0x100 + lo') 18 evt)
      else parse_network frame len eth_proto 14 evt
