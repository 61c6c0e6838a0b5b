-- ===== src/RuntimeConfig/Names.antt =====
-- What the settings that are names hold.
use stb_e_bpf.Base.{
  ℕ, zero, suc, ◌+◌, ◌-◌, ◌≤◌, ◌<◌, ◌≡◌, refl, ap, some, false, List, [], ◌∷◌, ◌++◌, arith, ◌==◌,
  length, take, take-all, length-append, length-take, replicate, All,
}
use stb_e_bpf.Probe.Dns.{c_string}
use stb_e_bpf.RuntimeConfig.{Env, strncpy_into, given, config_load_from_env}

abbrev pub IsText : List ℕ → Type 0
IsText s = All (λ c. 0 < c) s

pub c_string-padded : (s tail : List ℕ) → IsText s → c_string (s ++ (0 ∷ tail)) ≡ s
unfolding c_string
c_string-padded [] tail h = refl
c_string-padded (c ∷ s) tail h =
    let z : (c == 0) ≡ false = ground arith in rw z (ap (λ t. c ∷ t) (c_string-padded s tail h.1))

-- A name of at most sixty-two bytes is read as it is set.
pub c_string-strncpy_into :
    (size last : ℕ) (s : List ℕ)
    → IsText s
    → length s + 1 < size
    → c_string (strncpy_into size last s) ≡ s
unfolding strncpy_into
c_string-strncpy_into size last s h short =
    let k : size - 1 - length s ≡ suc (size - 2 - length s) = omega arith in
    rw (take-all (size - 1) s (omega arith))
      (rw (k, replicate) (c_string-padded s (replicate (size - 2 - length s) 0 ++ (last ∷ [])) h))

IsText-take : (n : ℕ) (s : List ℕ) → IsText s → IsText (take n s)
IsText-take zero s h = tt
IsText-take (suc n) [] h = tt
IsText-take (suc n) (c ∷ s) h = (h.0, IsText-take n s h.1)

IsText-last : (s : List ℕ) (last : ℕ) → IsText s → 0 < last → IsText (s ++ (last ∷ []))
IsText-last [] last h p = (p, tt)
IsText-last (c ∷ s) last h p = (h.0, IsText-last s last h.1 p)

abbrev pub with_probe_id : Env → List ℕ → Env
with_probe_id env name = record env { probe_id = some name }

-- Whatever else the environment holds: a probe's name that is set and has 1 to 62 bytes is the
-- name that is read.
pub config-probe_id :
    (env : Env) (c : ℕ) (s : List ℕ) (ip_last id_last : ℕ)
    → IsText (c ∷ s)
    → length s + 2 < 64
    → c_string (config_load_from_env (with_probe_id env (c ∷ s)) ip_last id_last).probe_id ≡ c ∷ s
unfolding config_load_from_env given
config-probe_id env c s ip_last id_last h short =
    c_string-strncpy_into 64 id_last (c ∷ s) h (omega arith)

-- A name of 63 bytes or more leaves an array of 64 bytes without a terminator, if the last byte of
-- the record on the stack was not zero before.
pub config_unterminated :
    (env : Env) (c : ℕ) (s : List ℕ) (ip_last id_last : ℕ)
    → IsText (c ∷ s)
    → 63 ≤ length s + 1
    → 0 < id_last
    → let id = (config_load_from_env (with_probe_id env (c ∷ s)) ip_last id_last).probe_id in
      IsText id × (length id ≡ 64)
unfolding config_load_from_env given strncpy_into
config_unterminated env c s ip_last id_last h long last =
    let none_left : 64 - 1 - length (c ∷ s) ≡ 0 = omega arith in
    rw (none_left, replicate)
      (
        IsText-last (take 63 (c ∷ s)) id_last (IsText-take 63 (c ∷ s) h) last,
        omega (arith, length-append (take 63 (c ∷ s)) (id_last ∷ []), length-take 63 (c ∷ s)),
      )
