-- ===== src/PacketParser/Checks.antt =====
-- The parser on concrete frames.
use stb_e_bpf.Base.{ℕ, ◌≡◌, refl, some, List, [], ◌++◌, arith, replicate}
use stb_e_bpf.PacketParser.{PktEvent, zero_pkt, packet_parse_raw}
use stb_e_bpf.PacketParser.Safety.{Returns, packet_parse_raw-Returns}
use stb_e_bpf.PacketParser.Vlan.{tagged, untagged, packet_parse_raw-tagged}
use stb_e_bpf.PacketParser.Fields.{
  Address, word, Ipv4Header, ipv4_bytes, TcpHeader, tcp_bytes, packet_parse_raw-ipv4_tcp,
}

abbrev server : Address
server = record { a = 192; b = 168; c = 1; d = 10 }

abbrev box : Address
box = record { a = 10; b = 0; c = 0; d = 225 }

abbrev nothing : Address
nothing = record { a = 0; b = 0; c = 0; d = 0 }

abbrev ip_header : Ipv4Header
ip_header = record {
  ihl = 6;
  tos = 0;
  total_length = 48;
  id = 7;
  flags = 2;
  ttl = 64;
  protocol = 6;
  checksum = 0;
  source = box;
  destination = server;
}

abbrev syn_header : TcpHeader
syn_header = record {
  source = 40000;
  destination = 80;
  sequence = nothing;
  acknowledgment = nothing;
  offset = 5;
  control = 2;
  window = 1024;
  checksum = 0;
  urgent = 0;
}

abbrev macs : List ℕ
macs = replicate 12 2

abbrev options : List ℕ
options = replicate 4 1

abbrev packet : List ℕ
packet = ipv4_bytes ip_header (options ++ tcp_bytes syn_header [])

abbrev frame : List ℕ
frame = untagged macs 0x08 0x00 packet

-- What the parser makes of `frame`.
abbrev syn_pkt : PktEvent
syn_pkt = record zero_pkt {
  src_ip = word box;
  dst_ip = word server;
  src_port = 40000;
  dst_port = 80;
  protocol = 6;
  tcp_flags = 2;
  ip_version = 4;
}

packet_parse_raw-Returns_example : Returns (packet_parse_raw frame 58 zero_pkt)
packet_parse_raw-Returns_example = packet_parse_raw-Returns frame 58 (omega arith) zero_pkt

packet_parse_raw-tagged_example :
    packet_parse_raw (tagged macs 0x20 0x0A 0x08 0x00 packet) 62 zero_pkt
    ≡ packet_parse_raw (untagged macs 0x08 0x00 packet) 58 zero_pkt
packet_parse_raw-tagged_example =
    packet_parse_raw-tagged macs 0x08 0x00 packet 58 refl (omega arith) (omega arith) 0x20 0x0A
      zero_pkt

packet_parse_raw-ipv4_tcp_example : packet_parse_raw frame 58 zero_pkt ≡ some (1, syn_pkt)
packet_parse_raw-ipv4_tcp_example =
    packet_parse_raw-ipv4_tcp macs options [] ip_header syn_header 58 zero_pkt refl (omega arith)
      refl refl (omega arith) (omega arith)
