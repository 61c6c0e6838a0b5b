-- ===== src/Probe/Sequence/Header.antt =====
-- What `extract_tcp_seq_num` reads, and what it gets out of a frame that is laid out by the RFCs.
use stb_e_bpf.Base.{
  ℕ, ◌+◌, ◌-◌, ◌*◌, ◌/◌, ◌%◌, ◌≤◌, ◌<◌, ◌≡◌, ap, ◌∙◌, inl, inr, true, false, Option, none, some,
  List, [], ◌∷◌, ◌++◌, arith, ltb, leb, ◌==◌, if◌then◌else◌, Option-cases, length, get_elem?,
  get_elem?-append, slice-append, slice, slice-some, be32, u16_mod, get_elem?-some,
}
use stb_e_bpf.Flow.{ipproto_tcp}
use stb_e_bpf.PacketParser.{PktEvent}
use stb_e_bpf.PacketParser.Vlan.{untagged}
use stb_e_bpf.PacketParser.Fields.{Address, Ipv4Header, ipv4_bytes, TcpHeader, tcp_bytes}
use stb_e_bpf.Probe.Sequence.{TcpInfo, kept_flags, eth_offset, read_tcp, extract_tcp_seq_num}

abbrev Reads {ℓ} : {A : Type ℓ} → Option A → Type 0
Reads none = ⊥
Reads (some a) = Unit

module _ (pkt_buf : List ℕ) (len : ℕ) (fits : len ≤ length pkt_buf) where
  byte : (i : ℕ) → i < len → (b : ℕ) × (get_elem? pkt_buf i ≡ some b)
  byte i h = get_elem?-some pkt_buf i (omega arith)

  read_tcp-Reads : (o : ℕ) → Reads (read_tcp pkt_buf len o)
  unfolding read_tcp
  read_tcp-Reads o = ground (arith, slice-some pkt_buf o 20)

  extract-Reads : (pkt : PktEvent) → Reads (extract_tcp_seq_num pkt_buf len pkt)
  unfolding extract_tcp_seq_num eth_offset
  extract-Reads pkt = grind (arith, byte 12, byte 13, byte 14, byte 18, read_tcp-Reads)

  -- If the buffer holds at least `len` bytes, then `extract_tcp_seq_num` makes no read outside it,
  -- for any header lengths in the packet and any event.
  pub extract-returns :
      (pkt : PktEvent) → (info : Option TcpInfo) × (extract_tcp_seq_num pkt_buf len pkt ≡ some info)
  extract-returns pkt =
      let ends = extract-Reads pkt in
      elim (Option-cases (extract_tcp_seq_num pkt_buf len pkt)) [
        | inl e ↦ absurd (ground arith)
        | inr found ↦ found
      ]

-- A sequence number as it is sent, most significant byte first.
abbrev pub number : Address → ℕ
number i = i.a * 0x100_0000 + i.b * 0x1_0000 + i.c * 0x100 + i.d

abbrev pub info_of : TcpHeader → ℕ → TcpInfo
info_of t payload_len = record {
  seq_num = number t.sequence;
  payload_len = payload_len % u16_mod;
  tcp_flags = kept_flags t.control;
}

read_tcp-header :
    (pkt_buf : List ℕ) (len o : ℕ) (t : TcpHeader)
    → slice pkt_buf o 20 ≡ some (tcp_bytes t [])
    → o + 20 ≤ len
    → t.offset < 16
    → read_tcp pkt_buf len o ≡ some (some (info_of t (len - (o + t.offset * 4))))
unfolding read_tcp be32
read_tcp-header pkt_buf len o t read fits d =
    let test : ltb len (o + 20) ≡ false = ground arith in
    let words : t.offset * 0x10 / 0x10 % 0x10 * 4 ≡ t.offset * 4 = omega arith in
    let over : (if ltb (o + t.offset * 4) len then (len - (o + t.offset * 4)) % u16_mod else 0)
        ≡ (len - (o + t.offset * 4)) % u16_mod =
      ground arith in
    rw (test, read)
      (rw words (
        ap
          (λ n. some (
            some (record {
              seq_num = number t.sequence;
              payload_len = n;
              tcp_flags = kept_flags t.control;
            })))
          over))

-- For an untagged IPv4 TCP frame laid out by RFC 791 and RFC 793, of which `len` bytes have been
-- received: the sequence number is that of the TCP header, most significant byte first, and the
-- payload's length is what has been received behind the TCP header with its options, modulo 2^16.
-- The length in the IP header is not looked at, so padding behind the packet counts as payload.
pub extract-ipv4_tcp :
    (macs options payload : List ℕ) (h : Ipv4Header) (t : TcpHeader) (len : ℕ) (pkt : PktEvent)
    → length macs ≡ 12
    → h.ihl < 16
    → length options + 20 ≡ h.ihl * 4
    → t.offset < 16
    → pkt.protocol ≡ ipproto_tcp
    → pkt.ip_version ≡ 4
    → h.ihl * 4 + 34 ≤ len
    → extract_tcp_seq_num
        (untagged macs 0x08 0x00 (ipv4_bytes h (options ++ tcp_bytes t payload)))
        len
        pkt
      ≡ some (some (info_of t (len - (14 + h.ihl * 4 + t.offset * 4))))
unfolding extract_tcp_seq_num eth_offset slice
extract-ipv4_tcp macs options payload h t len pkt m i o d p v n =
    let tcp = tcp_bytes t payload in
    let body : List ℕ = 0x08 ∷ 0x00 ∷ ipv4_bytes h (options ++ tcp) in
    let frame = macs ++ body in
    let at = get_elem?-append macs body in
    let read =
      slice-append macs body (14 + h.ihl * 4) (2 + h.ihl * 4) 20 (omega arith)
      ∙ slice-append (0x08 ∷ 0x00 ∷ ipv4_bytes h options) tcp (2 + h.ihl * 4) 0 20 (omega arith) in
    let ihl : 14 + (0x40 + h.ihl) % 0x10 * 4 ≡ 14 + h.ihl * 4 = omega arith in
    let is_tcp : (pkt.protocol == ipproto_tcp) ≡ true = ground arith in
    let is_v4 : (pkt.ip_version == 4) ≡ true = ground arith in
    let long : leb 16 len ≡ true = ground arith in
    let room : ltb len 34 ≡ false = ground arith in
    rw (is_tcp, long, at 12 0 (omega arith), at 13 1 (omega arith), is_v4)
      (rw (room, at 14 2 (omega arith))
        (rw ihl (
          read_tcp-header frame len (14 + h.ihl * 4) t (read ∙ slice-some tcp 0 20 (omega arith))
            (omega arith) d)))
