-- ===== src/PacketParser/Classify.antt =====
-- What `packet_to_flow_event` makes of a packet.
use stb_e_bpf.Base.{
  ℕ, ◌≡◌, ◌≢◌, ◌↔◌, Bool, true, not, ◌&&◌, ◌||◌, List, [], ◌==◌, arith, strncpy, codes, has_bits,
  length, length-strncpy, ◌≤◌, print_decimal,
}
use stb_e_bpf.Flow.{
  is_multicast, ipproto_icmp, tcp_flag_syn, tcp_flag_fin, tcp_flag_rst, cat_network, cat_iptv,
  cat_dns, cat_icmp, evt_dns_query, evt_connect, FlowEvent, evt_dns_reply, evt_icmp_echo,
  evt_disconnect, evt_flow,
}
use stb_e_bpf.PacketParser.{PktEvent}
use stb_e_bpf.PacketParser.Convert.{
  is_dns, copy_fields, mark_http, mark_lifecycle, mark_dns, mark_icmp, mark_iptv, protocol_name,
  packet_to_flow_event,
}

abbrev ends_connection : PktEvent → Bool
ends_connection pkt = has_bits pkt.tcp_flags tcp_flag_fin || has_bits pkt.tcp_flags tcp_flag_rst

-- No detection that returns early applies.
abbrev pub is_plain : PktEvent → Bool
is_plain pkt = not (is_dns pkt || pkt.protocol == ipproto_icmp || is_multicast pkt.dst_ip)

categories :
    (strncpy 16 cat_dns ≢ [])
    × (strncpy 16 cat_icmp ≢ [])
    × (strncpy 16 cat_iptv ≢ [])
    × (strncpy 16 cat_network ≢ [])
unfolding strncpy codes
categories = (λ e. cc, λ e. cc, λ e. cc, λ e. cc)

-- The category is left empty exactly for a packet that is neither DNS nor ICMP nor multicast and
-- has SYN, FIN or RST set: the connection lifecycle events have none.
pub category-empty_iff :
    (pkt : PktEvent) (probe_id : List ℕ)
    → ((packet_to_flow_event pkt probe_id).category ≡ [])
      ↔ ((is_plain pkt && (has_bits pkt.tcp_flags tcp_flag_syn || ends_connection pkt)) ≡ true)
unfolding packet_to_flow_event copy_fields mark_dns mark_icmp mark_iptv mark_lifecycle mark_http
category-empty_iff pkt probe_id = (ground (arith, categories), ground (arith, categories))

event_types :
    (strncpy 16 evt_dns_query ≢ strncpy 16 evt_connect)
    × (strncpy 16 evt_dns_reply ≢ strncpy 16 evt_connect)
    × (strncpy 16 evt_icmp_echo ≢ strncpy 16 evt_connect)
    × (strncpy 16 evt_disconnect ≢ strncpy 16 evt_connect)
    × (strncpy 16 evt_flow ≢ strncpy 16 evt_connect)
    × ([] ≢ strncpy 16 evt_connect)
unfolding strncpy codes
event_types = (λ e. cc, λ e. cc, λ e. cc, λ e. cc, λ e. cc, λ e. cc)

-- The event is a `connect` exactly for a packet with SYN set that is neither DNS nor ICMP nor
-- multicast.
pub event_type-connect_iff :
    (pkt : PktEvent) (probe_id : List ℕ)
    → ((packet_to_flow_event pkt probe_id).event_type ≡ strncpy 16 evt_connect)
      ↔ ((is_plain pkt && has_bits pkt.tcp_flags tcp_flag_syn) ≡ true)
unfolding packet_to_flow_event copy_fields mark_dns mark_icmp mark_iptv mark_lifecycle mark_http
event_type-connect_iff pkt probe_id = (ground (arith, event_types), ground (arith, event_types))

-- The fields that a consumer adds up or keys by.
pub record Carries (pkt : PktEvent) (flow : FlowEvent) : Type 0 where
  pub timestamp_ns : flow.timestamp_ns ≡ pkt.timestamp_ns
  pub src_ip : flow.src_ip ≡ pkt.src_ip
  pub dst_ip : flow.dst_ip ≡ pkt.dst_ip
  pub src_port : flow.src_port ≡ pkt.src_port
  pub dst_port : flow.dst_port ≡ pkt.dst_port
  pub protocol : flow.protocol ≡ protocol_name pkt.protocol
  pub tcp_flags : flow.tcp_flags ≡ pkt.tcp_flags
  pub bytes : flow.bytes ≡ pkt.pkt_len
  pub packets : flow.packets ≡ 1
  pub normal : flow.anomaly ≡ 0

-- Every string is shorter than its array, so that its terminator is inside it.
pub record Fits (flow : FlowEvent) : Type 0 where
  pub probe_id : length flow.probe_id ≤ 63
  pub category : length flow.category ≤ 15
  pub event_type : length flow.event_type ≤ 15
  pub protocol : length flow.protocol ≤ 7
  pub service : length flow.service ≤ 31
  pub tags : length flow.tags ≤ 63

literals :
    (length (strncpy 32 (codes "HTTP")) ≤ 31)
    × (length (strncpy 32 (codes "DNS")) ≤ 31)
    × (length (strncpy 32 (codes "ping")) ≤ 31)
    × (length (strncpy 32 (codes "IPTV")) ≤ 31)
    × (length (strncpy 64 (codes "http,request")) ≤ 63)
    × (length (strncpy 64 (codes "http,response")) ≤ 63)
    × (length (strncpy 64 (codes "dns")) ≤ 63)
    × (length (strncpy 64 (codes "icmp")) ≤ 63)
    × (length (strncpy 64 (codes "iptv,multicast")) ≤ 63)
literals = omega (arith, length-strncpy)

protocol_name-fits : (p : ℕ) → length (protocol_name p) ≤ 7
unfolding protocol_name print_decimal
protocol_name-fits p = grind (arith, length-strncpy)

short_names :
    (length (strncpy 16 cat_dns) ≤ 15)
    × (length (strncpy 16 cat_icmp) ≤ 15)
    × (length (strncpy 16 cat_iptv) ≤ 15)
    × (length (strncpy 16 cat_network) ≤ 15)
    × (length (strncpy 16 evt_dns_query) ≤ 15)
    × (length (strncpy 16 evt_dns_reply) ≤ 15)
    × (length (strncpy 16 evt_icmp_echo) ≤ 15)
    × (length (strncpy 16 evt_connect) ≤ 15)
    × (length (strncpy 16 evt_disconnect) ≤ 15)
    × (length (strncpy 16 evt_flow) ≤ 15)
short_names = omega (arith, length-strncpy)

packet_to_flow_event-Fits :
    (pkt : PktEvent) (probe_id : List ℕ) → Fits (packet_to_flow_event pkt probe_id)
unfolding packet_to_flow_event copy_fields mark_dns mark_icmp mark_iptv mark_lifecycle mark_http
packet_to_flow_event-Fits pkt probe_id =
    ground
      (arith, literals, short_names, protocol_name-fits pkt.protocol, length-strncpy 64 probe_id)

-- On every branch the event carries the packet's addresses, ports, flags and time, counts one
-- packet of `pkt_len` bytes, is marked normal, and each of its strings is shorter than its array.
pub packet_to_flow_event-Carries :
    (pkt : PktEvent) (probe_id : List ℕ)
    → Carries pkt (packet_to_flow_event pkt probe_id) × Fits (packet_to_flow_event pkt probe_id)
unfolding packet_to_flow_event copy_fields mark_dns mark_icmp mark_iptv mark_lifecycle mark_http
packet_to_flow_event-Carries pkt probe_id = (ground arith, packet_to_flow_event-Fits pkt probe_id)
