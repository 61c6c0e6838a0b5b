-- ===== src/PacketParser/Transport.antt =====
-- The TCP flags that the two branches of the parser collect.
use stb_e_bpf.Base.{
  ℕ, ◌+◌, ◌*◌, ◌/◌, ◌%◌, ◌<◌, ◌≡◌, refl, true, ◌&&◌, ◌==◌, arith, every_below, every_below-at, Bool,
}
use stb_e_bpf.PacketParser.{ipv4_tcp_flags, ipv6_tcp_flags}

abbrev is_row : ℕ → Bool
is_row b = ipv4_tcp_flags b == b % 0x40 && ipv6_tcp_flags b == b % 0x08 + b / 0x10 % 2 * 0x10

flags_table : every_below is_row 0x100 ≡ true
unfolding every_below ipv4_tcp_flags ipv6_tcp_flags
flags_table = refl

-- For a byte, the IPv4 branch collects its six lowest bits and nothing else; the IPv6 branch
-- collects FIN, SYN, RST and ACK and drops PSH and URG.
pub tcp_flags_bits :
    (b : ℕ)
    → b < 0x100
    → (ipv4_tcp_flags b ≡ b % 0x40) × (ipv6_tcp_flags b ≡ b % 0x08 + b / 0x10 % 2 * 0x10)
tcp_flags_bits b h = let row = every_below-at is_row 0x100 b h flags_table in ground arith
