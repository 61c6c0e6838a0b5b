-- ===== src/RuntimeConfig/Port.antt =====
-- A number in the environment is read as it is printed.
use stb_e_bpf.Base.{
  ℕ, zero, suc, ◌+◌, ◌-◌, ◌*◌, ◌/◌, ◌%◌, ◌^◌, ◌≤◌, ◌<◌, ◌≡◌, refl, sym, ap, ◌∙◌, inl, inr,
  Bool-cases, some, false, List, [], ◌∷◌, arith, ltb, ◌==◌, min, decimal, digits_of,
}
use stb_e_bpf.Probe.Http.{is_space, skip_blank, read_digits, atoi_of, atoi}
use stb_e_bpf.RuntimeConfig.{Env, given, config_load_from_env}

pub read_digits-digits_of :
    (fuel n : ℕ) (rest : List ℕ)
    → n ≤ fuel
    → read_digits 0 (digits_of fuel n rest) ≡ read_digits n rest
unfolding read_digits digits_of
read_digits-digits_of zero n rest h = let e : n ≡ 0 = omega arith in rw e refl
read_digits-digits_of (suc fuel) n rest h = elim (Bool-cases (ltb n 10)) [
  | inl small ↦ rw small (ground arith)
  | inr large ↦
      let whole : n / 10 * 10 + (b'0' + n % 10 - b'0') ≡ n = omega arith in
      let ih = read_digits-digits_of fuel (n / 10) ((b'0' + n % 10) ∷ rest) (ground arith) in
      rw large (ih ∙ ground (arith, whole))
]

-- A printed number starts with a digit.
digits_of-head :
    (fuel n : ℕ) (rest : List ℕ)
    → (c : ℕ) × (s : List ℕ) × (digits_of fuel n rest ≡ c ∷ s) × (b'0' ≤ c) × (c ≤ b'9')
unfolding digits_of
digits_of-head zero n rest = (b'0' + n % 10, rest, refl, omega arith, omega arith)
digits_of-head (suc fuel) n rest = elim (Bool-cases (ltb n 10)) [
  | inl small ↦ (b'0' + n, rest, rw small refl, omega arith, ground arith)
  | inr large ↦
      let (c, s, e, lo, hi) = digits_of-head fuel (n / 10) ((b'0' + n % 10) ∷ rest) in
      (c, s, rw large e, lo, hi)
]

atoi-digit :
    (c : ℕ) (s : List ℕ) (n : ℕ)
    → b'0' ≤ c
    → c ≤ b'9'
    → read_digits 0 (c ∷ s) ≡ n
    → n < 2 ^ 31
    → atoi (c ∷ s) ≡ n
unfolding skip_blank atoi_of
atoi-digit c s n lo hi e small =
    let a : is_space c ≡ false = ground arith in
    let m : (c == b'-') ≡ false = ground arith in
    let p : (c == b'+') ≡ false = ground arith in
    let low : min n (2 ^ 31 - 1) ≡ n = omega arith in rw a (rw (m, atoi_of) (rw p (rw e low)))

pub atoi-decimal : (n : ℕ) → n < 2 ^ 31 → atoi (decimal n) ≡ n
unfolding decimal
atoi-decimal n small =
    let (c, s, e, lo, hi) = digits_of-head n n [] in
    let r : read_digits 0 (digits_of n n []) ≡ n =
      read_digits-digits_of n n [] (omega arith) ∙ unfold read_digits in refl in
    ap atoi e ∙ atoi-digit c s n lo hi (ap (read_digits 0) (sym e) ∙ r) small

abbrev pub with_port : Env → List ℕ → Env
with_port env text = record env { relay_port = some text }

-- A port that is set as a decimal number below 2^31 is the one that is configured, whatever else
-- the environment holds.
pub config-port :
    (env : Env) (n ip_last id_last : ℕ)
    → n < 2 ^ 31
    → (config_load_from_env (with_port env (decimal n)) ip_last id_last).server_port ≡ n
unfolding config_load_from_env given decimal
config-port env n ip_last id_last small =
    let (c, s, e, lo, hi) = digits_of-head n n [] in
    rw (e, given) (ap atoi (sym e) ∙ unfold decimal in atoi-decimal n small)
