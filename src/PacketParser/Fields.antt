-- ===== src/PacketParser/Fields.antt =====
-- What the parser reads out of an IPv4 frame that is laid out by the headers' definitions.
use stb_e_bpf.Base.{
  ℕ, ◌+◌, ◌-◌, ◌*◌, ◌/◌, ◌%◌, ◌≤◌, ◌<◌, ◌≡◌, some, List, [], ◌∷◌, ◌++◌, ◌==◌, arith, length, be16,
  le32, slice, ◌∙◌,
}
use stb_e_bpf.Flow.{is_multicast, ipproto_tcp}
use stb_e_bpf.Flow.Multicast.{is_multicast_lem}
use stb_e_bpf.PacketParser.{
  PktEvent, packet_parse_raw, parse_network, parse_ipv4, parse_ipv4_transport,
}
use stb_e_bpf.PacketParser.Transport.{tcp_flags_bits}
use stb_e_bpf.PacketParser.Vlan.{
  untagged, untagged_lem, parse_ipv4-shift, parse_ipv4_transport-shift,
}

-- An IPv4 address a.b.c.d, in the order in which it is written and sent.
pub record Address : Type 0 where
  pub a : ℕ
  pub b : ℕ
  pub c : ℕ
  pub d : ℕ

-- The word that four bytes in memory make on a little-endian machine.
abbrev pub word : Address → ℕ
word i = i.a + i.b * 0x100 + i.c * 0x1_0000 + i.d * 0x100_0000

-- The fields of an IPv4 header (RFC 791), with the three flag bits of the fragment field, and the
-- eight bytes before the address part that the parser does not read as two lists of their own.
pub record Ipv4Header : Type 0 where
  pub ihl : ℕ
  pub tos : ℕ
  pub total_length : ℕ
  pub id : ℕ
  pub flags : ℕ
  pub ttl : ℕ
  pub protocol : ℕ
  pub checksum : ℕ
  pub source : Address
  pub destination : Address

abbrev pub ipv4_bytes : Ipv4Header → List ℕ → List ℕ
ipv4_bytes h rest =
    (0x40 + h.ihl)
    ∷ h.tos
    ∷ (h.total_length / 0x100)
    ∷ (h.total_length % 0x100)
    ∷ (h.id / 0x100)
    ∷ (h.id % 0x100)
    ∷ (h.flags * 0x20)
    ∷ 0
    ∷ h.ttl
    ∷ h.protocol
    ∷ (h.checksum / 0x100)
    ∷ (h.checksum % 0x100)
    ∷ h.source.a
    ∷ h.source.b
    ∷ h.source.c
    ∷ h.source.d
    ∷ h.destination.a
    ∷ h.destination.b
    ∷ h.destination.c
    ∷ h.destination.d
    ∷ rest

-- The fields of a TCP header (RFC 793); `control` is the byte of the flags.
pub record TcpHeader : Type 0 where
  pub source : ℕ
  pub destination : ℕ
  pub sequence : Address
  pub acknowledgment : Address
  pub offset : ℕ
  pub control : ℕ
  pub window : ℕ
  pub checksum : ℕ
  pub urgent : ℕ

abbrev pub tcp_bytes : TcpHeader → List ℕ → List ℕ
tcp_bytes t rest =
    (t.source / 0x100)
    ∷ (t.source % 0x100)
    ∷ (t.destination / 0x100)
    ∷ (t.destination % 0x100)
    ∷ t.sequence.a
    ∷ t.sequence.b
    ∷ t.sequence.c
    ∷ t.sequence.d
    ∷ t.acknowledgment.a
    ∷ t.acknowledgment.b
    ∷ t.acknowledgment.c
    ∷ t.acknowledgment.d
    ∷ (t.offset * 0x10)
    ∷ t.control
    ∷ (t.window / 0x100)
    ∷ (t.window % 0x100)
    ∷ (t.checksum / 0x100)
    ∷ (t.checksum % 0x100)
    ∷ (t.urgent / 0x100)
    ∷ (t.urgent % 0x100)
    ∷ rest

tcp_fields :
    (t : TcpHeader) (rest : List ℕ) (len : ℕ) (evt : PktEvent)
    → evt.protocol ≡ ipproto_tcp
    → t.control < 0x100
    → 20 ≤ len
    → parse_ipv4_transport (tcp_bytes t rest) len 0 evt
      ≡ some (
        1,
        record evt { src_port = t.source; dst_port = t.destination; tcp_flags = t.control % 0x40 },
      )
unfolding parse_ipv4_transport slice be16
tcp_fields t rest len evt p c n = ground (arith, tcp_flags_bits t.control c)

-- The IP header, with the transport part behind it.
ipv4_fields :
    (h : Ipv4Header) (options rest : List ℕ) (len : ℕ) (evt : PktEvent)
    → h.ihl < 16
    → length options + 20 ≡ h.ihl * 4
    → length options + 20 ≤ len
    → parse_ipv4 (ipv4_bytes h (options ++ rest)) len 0 evt
      ≡ parse_ipv4_transport rest (len - h.ihl * 4) 0 (record evt {
        src_ip = word h.source;
        dst_ip = word h.destination;
        protocol = h.protocol;
        ip_version = 4;
      })
unfolding parse_ipv4 slice be16 le32
ipv4_fields h options rest len evt i o n =
    let ihl : (0x40 + h.ihl) % 16 * 4 ≡ h.ihl * 4 = omega arith in
    let frag : (h.flags * 0x20 * 0x100 + 0) % 0x2000 ≡ 0 = omega arith in
    ground (
      arith,
      parse_ipv4_transport-shift (ipv4_bytes h options) rest len (len - h.ihl * 4) (omega arith)
          (h.ihl * 4) 0
          (record evt {
            src_ip = word h.source;
            dst_ip = word h.destination;
            protocol = h.protocol;
            ip_version = 4;
          })
          (omega arith),
    )

-- For any two addresses, any options that the header length covers, any fragment flags and any
-- payload: an unfragmented IPv4 TCP frame laid out by RFC 791 and RFC 793 is accepted, and the
-- event gets its ports, its six flag bits, its protocol, version 4, and each address as the word
-- that its four bytes make in memory. The rest of the event stays.
pub packet_parse_raw-ipv4_tcp :
    (macs options payload : List ℕ) (h : Ipv4Header) (t : TcpHeader) (len : ℕ) (evt : PktEvent)
    → length macs ≡ 12
    → h.ihl < 16
    → length options + 20 ≡ h.ihl * 4
    → h.protocol ≡ ipproto_tcp
    → t.control < 0x100
    → h.ihl * 4 + 34 ≤ len
    → packet_parse_raw
        (untagged macs 0x08 0x00 (ipv4_bytes h (options ++ tcp_bytes t payload)))
        len
        evt
      ≡ some (
        1,
        record evt {
          src_ip = word h.source;
          dst_ip = word h.destination;
          src_port = t.source;
          dst_port = t.destination;
          protocol = h.protocol;
          tcp_flags = t.control % 0x40;
          ip_version = 4;
        },
      )
unfolding parse_network
packet_parse_raw-ipv4_tcp macs options payload h t len evt m i o p c n =
    let body = ipv4_bytes h (options ++ tcp_bytes t payload) in
    untagged_lem macs 0x08 0x00 body len m (omega arith) (omega arith) evt
    ∙ parse_ipv4-shift (0x08 ∷ 0x00 ∷ []) body (len - 12) (len - 14) (omega arith) 2 0 evt
        (omega arith)
    ∙ ipv4_fields h options (tcp_bytes t payload) (len - 14) evt i o (omega arith)
    ∙ tcp_fields t payload (len - 14 - h.ihl * 4) _ p c (omega arith)

-- `IS_MULTICAST` on an address as the parser stores it tests the LAST byte of the address, d of
-- a.b.c.d, for the range 224 to 239, where the multicast range is that of the first byte.
pub is_multicast-word :
    (i : Address)
    → i.a < 0x100
    → i.b < 0x100
    → i.c < 0x100
    → i.d < 0x100
    → is_multicast (word i) ≡ (i.d / 16 == 14)
is_multicast-word i a b c d = ground (arith, is_multicast_lem (word i))
