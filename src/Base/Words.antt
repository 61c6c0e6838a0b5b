-- ===== src/Base/Words.antt =====
-- Machine words: bytes in memory order, and wrap-around written out.
use Prim.Native.Nat.{ℕ, zero, suc, ◌+◌, ◌-◌, ◌*◌, ◌%◌, ◌<◌, bit_and}
use mathlib.Core.Path.{◌≡◌}
use mathlib.Core.Bool.{Bool, true, not, ◌&&◌}
use mathlib.Core.List.{List}
use native.Mathlib.Omega.{arith}
use stb_e_bpf.Base.Tests.{◌==◌}
use stb_e_bpf.Base.Lists.{get_or}

abbrev pub u8_mod : ℕ
u8_mod = 0x100

abbrev pub u16_mod : ℕ
u16_mod = 0x1_0000

abbrev pub u32_mod : ℕ
u32_mod = 0x1_0000_0000

abbrev pub u64_mod : ℕ
u64_mod = 0x1_0000_0000_0000_0000

-- `__u64` addition and subtraction.
abbrev pub add64 : ℕ → ℕ → ℕ
add64 a b = (a + b) % u64_mod

abbrev pub sub64 : ℕ → ℕ → ℕ
sub64 a b = (a + u64_mod - b) % u64_mod

abbrev pub add32 : ℕ → ℕ → ℕ
add32 a b = (a + b) % u32_mod

-- `x & mask` as a test.
unfoldable pub has_bits : ℕ → ℕ → Bool
has_bits x mask = not (bit_and x mask == 0)

-- Two bytes at `i` in network order, and two or four in the order of a little-endian machine.
unfoldable pub be16 : List ℕ → ℕ → ℕ
be16 s i = get_or s i 0 * 0x100 + get_or s (i + 1) 0

unfoldable pub le16 : List ℕ → ℕ → ℕ
le16 s i = get_or s i 0 + get_or s (i + 1) 0 * 0x100

unfoldable pub be32 : List ℕ → ℕ → ℕ
be32 s i =
    get_or s i 0 * 0x100_0000
    + get_or s (i + 1) 0 * 0x1_0000
    + get_or s (i + 2) 0 * 0x100
    + get_or s (i + 3) 0

unfoldable pub le32 : List ℕ → ℕ → ℕ
le32 s i =
    get_or s i 0
    + get_or s (i + 1) 0 * 0x100
    + get_or s (i + 2) 0 * 0x1_0000
    + get_or s (i + 3) 0 * 0x100_0000

-- A check of every value below a bound, by evaluation.
unfoldable pub every_below : (ℕ → Bool) → ℕ → Bool
every_below test zero = true
every_below test (suc top) = every_below test top && test top

pub every_below-at :
    (test : ℕ → Bool) (top i : ℕ) → i < top → every_below test top ≡ true → test i ≡ true
unfolding every_below
every_below-at test zero i below h = absurd (omega arith)
every_below-at test (suc top) i below h =
    let earlier = every_below-at test top i in ground (arith, earlier)
