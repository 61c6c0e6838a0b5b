-- ===== src/ProcNet/Dev/Numbers.antt =====
-- Numbers that are printed with white space between them are read back.
use stb_e_bpf.Base.{
  ℕ, zero, suc, ◌+◌, ◌-◌, ◌*◌, ◌/◌, ◌%◌, ◌≤◌, ◌<◌, ◌≡◌, refl, sym, ap, ◌∙◌, min, inl, inr,
  Bool-cases, true, false, some, List, [], ◌∷◌, arith, ltb, ◌==◌, length, take, All, digits_of,
  u64_mod,
}
use stb_e_bpf.ProcNet.{is_space, skip_space, digit_value, is_digit, read_digits}
use stb_e_bpf.ProcNet.Dev.{read_decimal, read_ull, read_ulls}

-- A printed decimal digit.
digit : (d : ℕ) → d < 10 → (digit_value (b'0' + d) ≡ some d)
unfolding digit_value
digit d h = ground arith

is_digit-digit : (d : ℕ) → d < 10 → is_digit 10 (b'0' + d) ≡ true
unfolding is_digit
is_digit-digit d h = ground (arith, digit d h)

read_one :
    (v d : ℕ) (rest : List ℕ)
    → d < 10
    → read_digits 10 v ((b'0' + d) ∷ rest) ≡ read_digits 10 (v * 10 + d) rest
unfolding read_digits
read_one v d rest h = rw (is_digit-digit d h, read_digits) (rw (digit d h) refl)

read_digits-digits_of :
    (fuel n : ℕ) (rest : List ℕ)
    → n ≤ fuel
    → read_digits 10 0 (digits_of fuel n rest) ≡ read_digits 10 n rest
unfolding digits_of
read_digits-digits_of zero n rest h =
    let e : n ≡ 0 = omega arith in rw e (read_one 0 0 rest (omega arith))
read_digits-digits_of (suc fuel) n rest h = elim (Bool-cases (ltb n 10)) [
  | inl small ↦
      let plain : 0 * 10 + n ≡ n = omega arith in
      rw small (read_one 0 n rest (ground arith) ∙ ap (λ k. read_digits 10 k rest) plain)
  | inr large ↦
      let whole : n / 10 * 10 + n % 10 ≡ n = omega arith in
      rw large (
        read_digits-digits_of fuel (n / 10) ((b'0' + n % 10) ∷ rest) (ground arith)
        ∙ (read_one (n / 10) (n % 10) rest (omega arith) ∙ ap (λ k. read_digits 10 k rest) whole))
]

-- A printed number starts with a digit.
digits_of-head :
    (fuel n : ℕ) (rest : List ℕ)
    → (d : ℕ) × (s : List ℕ) × (digits_of fuel n rest ≡ (b'0' + d) ∷ s) × (d < 10)
unfolding digits_of
digits_of-head zero n rest = (n % 10, rest, refl, omega arith)
digits_of-head (suc fuel) n rest = elim (Bool-cases (ltb n 10)) [
  | inl small ↦ (n, rest, rw small refl, ground arith)
  | inr large ↦
      let (d, s, e, low) = digits_of-head fuel (n / 10) ((b'0' + n % 10) ∷ rest) in
      (d, s, rw large e, low)
]

-- What may stand behind a number: nothing, or something that is no digit.
abbrev pub Ends : List ℕ → Type 0
Ends [] = Unit
Ends (c ∷ s) = is_digit 10 c ≡ false

read_digits-Ends : (v : ℕ) (rest : List ℕ) → Ends rest → read_digits 10 v rest ≡ (v, rest)
unfolding read_digits
read_digits-Ends v [] h = refl
read_digits-Ends v (c ∷ s) h = rw (h, read_digits) refl

pub skip_digit : (d : ℕ) (s : List ℕ) → d < 10 → skip_space ((b'0' + d) ∷ s) ≡ (b'0' + d) ∷ s
unfolding skip_space is_space
skip_digit d s h = ground arith

read_ull-digit :
    (d : ℕ) (s : List ℕ) (r : ℕ × List ℕ)
    → d < 10
    → read_digits 10 0 ((b'0' + d) ∷ s) ≡ r
    → read_ull ((b'0' + d) ∷ s) ≡ some (min r.0 (u64_mod - 1), r.1)
unfolding read_ull read_decimal
read_ull-digit d s r h e =
    let minus : (b'0' + d == b'-') ≡ false = ground arith in
    let plus : (b'0' + d == b'+') ≡ false = ground arith in
    rw (skip_digit d s h, read_ull)
      (rw minus (rw plus (rw (is_digit-digit d h, read_decimal) (rw e refl))))

-- A number of 64 bits, printed.
pub read_ull-decimal :
    (n : ℕ) (rest : List ℕ)
    → n < u64_mod
    → Ends rest
    → read_ull (digits_of n n rest) ≡ some (n, rest)
read_ull-decimal n rest small ends =
    let (d, s, e, low) = digits_of-head n n rest in
    let r = read_digits-digits_of n n rest (omega arith) ∙ read_digits-Ends n rest ends in
    let clipped : min n (u64_mod - 1) ≡ n = omega arith in
    ap read_ull e
    ∙ read_ull-digit d s (n, rest) low (ap (read_digits 10 0) (sym e) ∙ r)
    ∙ ap (λ k. some (k, rest)) clipped

-- White space in front of a number.
read_ull-space : (s : List ℕ) → read_ull (0x20 ∷ s) ≡ read_ull s
unfolding read_ull skip_space is_space
read_ull-space s = refl

-- Numbers in their order, each behind a blank.
unfoldable pub spaced : List ℕ → List ℕ → List ℕ
spaced [] rest = rest
spaced (n ∷ ns) rest = 0x20 ∷ digits_of n n (spaced ns rest)

pub spaced-Ends : (ns rest : List ℕ) → Ends rest → Ends (spaced ns rest)
unfolding spaced digit_value is_digit
spaced-Ends [] rest h = h
spaced-Ends (n ∷ ns) rest h = refl

-- The first `k` of them are read.
pub read_ulls-spaced :
    (k : ℕ) (ns rest : List ℕ)
    → k ≤ length ns
    → All (λ n. n < u64_mod) ns
    → Ends rest
    → read_ulls k (spaced ns rest) ≡ take k ns
unfolding read_ulls spaced
read_ulls-spaced zero ns rest h small ends = refl
read_ulls-spaced (suc k) [] rest h small ends = absurd (omega arith)
read_ulls-spaced (suc k) (n ∷ ns) rest h small ends =
    let first =
      read_ull-space (digits_of n n (spaced ns rest))
      ∙ read_ull-decimal n (spaced ns rest) small.0 (spaced-Ends ns rest ends) in
    rw (first, read_ulls) (ap (λ t. n ∷ t) (read_ulls-spaced k ns rest (omega arith) small.1 ends))
