-- ===== src/PacketParser/Convert.antt =====
-- `packet_to_flow_event` of src/packet_parser.c: the classification of a packet.
use stb_e_bpf.Base.{
  ℕ, List, Bool, strncpy, codes, if◌then◌else◌, ◌==◌, has_bits, print_decimal, ◌&&◌, ◌||◌,
}
use stb_e_bpf.PacketParser.{
  PktEvent, FlowEvent, zero_event, cat_dns, cat_icmp, cat_iptv, ipproto_tcp, ipproto_udp,
  payload_http_req, port_dns, evt_icmp_echo, ipproto_icmp, payload_http_resp, tcp_flag_syn,
  evt_dns_query, is_multicast, port_http, evt_connect, evt_dns_reply, port_https, tcp_flag_fin,
  tcp_flag_rst, evt_disconnect, cat_network, evt_flow,
}

-- The protocol's name, or its number.
unfoldable pub protocol_name : ℕ → List ℕ
protocol_name p =
    if p == ipproto_tcp
    then strncpy 8 (codes "TCP")
    else if p == ipproto_udp
    then strncpy 8 (codes "UDP")
    else if p == ipproto_icmp
    then strncpy 8 (codes "ICMP")
    else print_decimal 8 p

abbrev pub is_dns : PktEvent → Bool
is_dns pkt = pkt.protocol == ipproto_udp && (pkt.src_port == port_dns || pkt.dst_port == port_dns)

abbrev pub is_web : PktEvent → Bool
is_web pkt =
    pkt.protocol == ipproto_tcp
    && (pkt.src_port == port_http
        || pkt.dst_port == port_http
        || pkt.src_port == port_https
        || pkt.dst_port == port_https)

-- The fields that are copied before any detection.
unfoldable pub copy_fields : PktEvent → List ℕ → FlowEvent
copy_fields pkt probe_id = record zero_event {
  timestamp_ns = pkt.timestamp_ns;
  probe_id = strncpy 64 probe_id;
  src_ip = pkt.src_ip;
  dst_ip = pkt.dst_ip;
  src_port = pkt.src_port;
  dst_port = pkt.dst_port;
  protocol = protocol_name pkt.protocol;
  ip_version = pkt.ip_version;
  tcp_flags = pkt.tcp_flags;
  payload_type = pkt.payload_type;
  pkt_len = pkt.pkt_len;
  bytes = pkt.pkt_len;
  packets = 1;
  latency_us = pkt.latency_us;
  pid = pkt.pid;
}

-- The HTTP marks.
unfoldable pub mark_http : PktEvent → FlowEvent → FlowEvent
mark_http pkt flow =
    if pkt.payload_type == payload_http_req
    then record flow {
      service = strncpy 32 (codes "HTTP");
      tags = strncpy 64 (codes "http,request");
    }
    else if pkt.payload_type == payload_http_resp
    then record flow {
      service = strncpy 32 (codes "HTTP");
      tags = strncpy 64 (codes "http,response");
    }
    else if is_web pkt
    then record flow { service = strncpy 32 (codes "HTTP") }
    else flow

-- The connection lifecycle, and the default.
unfoldable pub mark_lifecycle : PktEvent → FlowEvent → FlowEvent
mark_lifecycle pkt flow =
    if has_bits pkt.tcp_flags tcp_flag_syn
    then record flow { event_type = strncpy 16 evt_connect }
    else if has_bits pkt.tcp_flags tcp_flag_fin || has_bits pkt.tcp_flags tcp_flag_rst
    then record flow { event_type = strncpy 16 evt_disconnect }
    else record flow { category = strncpy 16 cat_network; event_type = strncpy 16 evt_flow }

unfoldable pub mark_dns : PktEvent → FlowEvent → FlowEvent
mark_dns pkt flow = record flow {
  category = strncpy 16 cat_dns;
  event_type =
      if pkt.dst_port == port_dns then strncpy 16 evt_dns_query else strncpy 16 evt_dns_reply;
  service = strncpy 32 (codes "DNS");
  tags = strncpy 64 (codes "dns");
}

unfoldable pub mark_icmp : PktEvent → FlowEvent → FlowEvent
mark_icmp pkt flow =
    let marked = record flow { category = strncpy 16 cat_icmp; tags = strncpy 64 (codes "icmp") } in
    if pkt.dst_port == 8
    then record marked {
      event_type = strncpy 16 evt_icmp_echo;
      service = strncpy 32 (codes "ping");
    }
    else marked

unfoldable pub mark_iptv : FlowEvent → FlowEvent
mark_iptv flow = record flow {
  category = strncpy 16 cat_iptv;
  service = strncpy 32 (codes "IPTV");
  tags = strncpy 64 (codes "iptv,multicast");
}

-- `packet_to_flow_event`.
unfoldable pub packet_to_flow_event : PktEvent → List ℕ → FlowEvent
packet_to_flow_event pkt probe_id =
    let flow = copy_fields pkt probe_id in
    if is_dns pkt
    then mark_dns pkt flow
    else if pkt.protocol == ipproto_icmp
    then mark_icmp pkt flow
    else if is_multicast pkt.dst_ip
    then mark_iptv flow
    else mark_lifecycle pkt (mark_http pkt flow)
