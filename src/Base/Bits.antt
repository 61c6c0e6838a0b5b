-- ===== src/Base/Bits.antt =====
-- Masks at a variable: `x & 1`, `x & 0xF`, and a mask that is shifted by whole nibbles.
use Prim.Native.Nat.{ℕ, zero, suc, ◌+◌, ◌*◌, ◌/◌, ◌%◌, ◌≤◌, min, bit_and, digits, bit_and-bitwise}
use mathlib.Core.Path.{◌≡◌, refl, ◌∙◌}
use mathlib.Core.Logic.{inl, inr}
use stb_e_bpf.Base.Tests.{leb, Bool-cases}
use native.Mathlib.Omega.{arith}

abbrev conj : ℕ → ℕ → ℕ → ℕ
conj fuel x y = digits (λ _. 0) min fuel x y

-- One more unit of fuel changes nothing, so that all fuel from the first number on is alike.
conj-suc : (fuel x y : ℕ) → x ≤ fuel → conj (suc fuel) x y ≡ conj fuel x y
conj-suc zero x y enough = let none_left : x ≡ 0 = omega arith in rw none_left refl
conj-suc (suc fuel) zero y enough = refl
conj-suc (suc fuel) (suc x) y enough =
    let halves = conj-suc fuel (suc x / 2) (y / 2) (omega arith) in omega (arith, halves)

conj_exact : (fuel x y : ℕ) → x ≤ fuel → conj fuel x y ≡ conj x x y
conj_exact zero x y enough = let none_left : x ≡ 0 = omega arith in rw none_left refl
conj_exact (suc fuel) x y enough = elim (Bool-cases (leb x fuel)) [
  | inl less ↦ conj-suc fuel x y (ground arith) ∙ conj_exact fuel x y (ground arith)
  | inr all ↦ let same : x ≡ suc fuel = ground arith in rw same refl
]

conj-zero : (fuel x : ℕ) → conj fuel x 0 ≡ 0
conj-zero zero x = refl
conj-zero (suc fuel) zero = refl
conj-zero (suc fuel) (suc x) = let halves = conj-zero fuel (suc x / 2) in omega (arith, halves)

pub bit_and-zero : (x : ℕ) → bit_and x 0 ≡ 0
bit_and-zero x = bit_and-bitwise x 0 ∙ conj-zero x x

-- One digit of the conjunction.
pub bit_and_digit : (x y : ℕ) → bit_and x y ≡ bit_and (x / 2) (y / 2) * 2 + min (x % 2) (y % 2)
bit_and_digit x y = digit_of x
  where
    digit_of : (z : ℕ) → bit_and z y ≡ bit_and (z / 2) (y / 2) * 2 + min (z % 2) (y % 2)
    digit_of zero = omega (arith, bit_and-bitwise 0 y, bit_and-bitwise 0 (y / 2))
    digit_of (suc n) =
        let enough = conj_exact n (suc n / 2) (y / 2) (omega arith) in
        let half = bit_and-bitwise (suc n / 2) (y / 2) in
        bit_and-bitwise (suc n) y ∙ omega (arith, enough, half)

-- `x & 0xF`.
pub bit_and-nibble : (x : ℕ) → bit_and x 15 ≡ x % 16
bit_and-nibble x = omega (
  arith,
  bit_and_digit x 15,
  bit_and_digit (x / 2) 7,
  bit_and_digit (x / 2 / 2) 3,
  bit_and_digit (x / 2 / 2 / 2) 1,
  bit_and-zero (x / 2 / 2 / 2 / 2),
)

bit_and-double : (x m : ℕ) → bit_and x (m * 2) ≡ bit_and (x / 2) m * 2
bit_and-double x m =
    let half : m * 2 / 2 ≡ m = omega arith in rw (bit_and_digit x (m * 2), half) (omega arith)

-- A mask of four bits above its lowest nibble reads the number with that nibble dropped.
pub bit_and-shift_nibble : (x m : ℕ) → bit_and x (m * 16) ≡ bit_and (x / 16) m * 16
bit_and-shift_nibble x m =
    let out : m * 16 ≡ m * 2 * 2 * 2 * 2 = omega arith in
    let back : x / 2 / 2 / 2 / 2 ≡ x / 16 = omega arith in
    rw (out, bit_and-double, bit_and-double, bit_and-double, bit_and-double, back) (omega arith)
