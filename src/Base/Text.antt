-- ===== src/Base/Text.antt =====
-- C strings as lists of bytes: `strncpy` into a zeroed buffer, and decimal printing.
use Prim.Native.Nat.{ℕ, zero, suc, ◌+◌, ◌-◌, ◌/◌, ◌%◌, ◌≤◌}
use Prim.Native.Char.{code}
use Prim.Native.String.{String}
use mathlib.Core.List.{List, [], ◌∷◌}
use native.Mathlib.Omega.{arith}
use stb_e_bpf.Base.Tests.{ltb, if◌then◌else◌}
use stb_e_bpf.Base.Lists.{length, take, length-take}

-- The bytes of a literal.
unfoldable pub codes : String → List ℕ
codes String.[] = []
codes (String.◌∷◌ c s) = code c ∷ codes s

-- `strncpy(dst, s, size - 1)` where `dst` holds `size` zeroes: what `dst` reads as a string.
unfoldable pub strncpy : ℕ → List ℕ → List ℕ
strncpy size s = take (size - 1) s

pub length-strncpy : (size : ℕ) (s : List ℕ) → length (strncpy size s) ≤ size - 1
unfolding strncpy
length-strncpy size s = omega (arith, length-take (size - 1) s)

-- `%d` and `%u`; the fuel is the number itself, which has fewer digits.
unfoldable pub digits_of : ℕ → ℕ → List ℕ → List ℕ
digits_of zero n rest = (b'0' + n % 10) ∷ rest
digits_of (suc fuel) n rest =
    let more = digits_of fuel (n / 10) ((b'0' + n % 10) ∷ rest) in
    if ltb n 10 then (b'0' + n) ∷ rest else more

unfoldable pub decimal : ℕ → List ℕ
unfolding digits_of
decimal n = digits_of n n []

-- `snprintf(dst, size, "%d", n)`.
unfoldable pub print_decimal : ℕ → ℕ → List ℕ
unfolding strncpy decimal
print_decimal size n = strncpy size (decimal n)
