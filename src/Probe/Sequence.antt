-- ===== src/Probe/Sequence.antt =====
-- `extract_tcp_seq_num` of src/main.c.
pub mod Header
use stb_e_bpf.Base.{
  ℕ, ◌+◌, ◌-◌, ◌*◌, ◌/◌, ◌%◌, not, ◌&&◌, Option, none, some, List, ltb, leb, ◌==◌, if◌then◌else◌,
  ◌>>=◌, get_elem?, get_or, slice, has_bits, be32, u16_mod,
}
use stb_e_bpf.Flow.{ipproto_tcp, tcp_flag_syn, tcp_flag_ack, tcp_flag_fin, tcp_flag_rst}
use stb_e_bpf.PacketParser.{PktEvent, set_flag}

-- The three outputs.
pub record TcpInfo : Type 0 where
  pub seq_num : ℕ
  pub payload_len : ℕ
  pub tcp_flags : ℕ

-- The four flags that are kept of byte 13 of the TCP header.
unfoldable pub kept_flags : ℕ → ℕ
unfolding set_flag has_bits
kept_flags b = set_flag (has_bits b tcp_flag_rst) tcp_flag_rst (
    set_flag (has_bits b tcp_flag_fin) tcp_flag_fin (
      set_flag (has_bits b tcp_flag_ack) tcp_flag_ack
        (set_flag (has_bits b tcp_flag_syn) tcp_flag_syn 0)))

-- The length of the Ethernet header, with a tag or without: 14 or 18.
unfoldable pub eth_offset : List ℕ → ℕ → Option ℕ
eth_offset pkt_buf len =
    if leb 16 len
    then (get_elem? pkt_buf 12 >>= λ hi.
        get_elem? pkt_buf 13 >>= λ lo. some (if hi == 0x81 && lo == 0 then 18 else 14))
    else some 14

-- The part from the TCP header on; what does not fit 16 bits of the payload's length is lost.
unfoldable pub read_tcp : List ℕ → ℕ → ℕ → Option (Option TcpInfo)
read_tcp pkt_buf len tcp_offset = if ltb len (tcp_offset + 20) then some none else do
  tcp ← slice pkt_buf tcp_offset 20
  let total_hdr = tcp_offset + get_or tcp 12 0 / 0x10 % 0x10 * 4
  some (
      some (record {
        seq_num = be32 tcp 4;
        payload_len = if ltb total_hdr len then (len - total_hdr) % u16_mod else 0;
        tcp_flags = kept_flags (get_or tcp 13 0);
      }))

-- `extract_tcp_seq_num`: the outer `none` is a read outside the buffer, the inner one is the
-- return value 0. Its pointers are not null.
unfoldable pub extract_tcp_seq_num : List ℕ → ℕ → PktEvent → Option (Option TcpInfo)
extract_tcp_seq_num pkt_buf len pkt = if not (pkt.protocol == ipproto_tcp) then some none else do
  eth ← eth_offset pkt_buf len
  if pkt.ip_version == 4
      then (if ltb len (eth + 20)
          then some none
          else do first ← get_elem? pkt_buf eth; read_tcp pkt_buf len (eth + first % 0x10 * 4))
      else if pkt.ip_version == 6
      then read_tcp pkt_buf len (eth + 40)
      else some none
