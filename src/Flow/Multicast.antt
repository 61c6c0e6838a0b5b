-- ===== src/Flow/Multicast.antt =====
-- What `IS_MULTICAST` says of an address as the packet parser stores it.
use stb_e_bpf.Base.{
  ℕ, ◌≡◌, ◌*◌, ◌/◌, ◌%◌, ◌==◌, arith, bit_and, bit_and-nibble, bit_and-shift_nibble,
}
use stb_e_bpf.Flow.{is_multicast}

top_nibble : (ip : ℕ) → bit_and ip 0xF000_0000 ≡ ip / 0x1000_0000 % 16 * 0x1000_0000
top_nibble ip = omega (
  arith,
  bit_and-shift_nibble ip 0xF00_0000,
  bit_and-shift_nibble (ip / 16) 0xF0_0000,
  bit_and-shift_nibble (ip / 16 / 16) 0xF_0000,
  bit_and-shift_nibble (ip / 16 / 16 / 16) 0xF000,
  bit_and-shift_nibble (ip / 16 / 16 / 16 / 16) 0xF00,
  bit_and-shift_nibble (ip / 16 / 16 / 16 / 16 / 16) 0xF0,
  bit_and-shift_nibble (ip / 16 / 16 / 16 / 16 / 16 / 16) 0xF,
  bit_and-nibble (ip / 16 / 16 / 16 / 16 / 16 / 16 / 16),
)

-- The macro reads the four most significant bits of the word.
pub is_multicast_lem : (ip : ℕ) → is_multicast ip ≡ (ip / 0x1000_0000 % 16 == 14)
unfolding is_multicast
is_multicast_lem ip = ground (arith, top_nibble ip)
