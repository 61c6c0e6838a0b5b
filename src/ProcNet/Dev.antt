-- ===== src/ProcNet/Dev.antt =====
-- `proc_net_read_dev` of src/proc_net.c, and the conversion of `sscanf` that it and
-- src/host_metrics.c use for numbers of 64 bits. A file is the list of its lines, each below the
-- 512 bytes of the line buffer.
pub mod Numbers
pub mod Totals
use stb_e_bpf.Base.{
  ℕ, zero, suc, ◌+◌, ◌-◌, ◌%◌, min, Bool, true, false, Option, none, some, List, [], ◌∷◌, ◌==◌,
  if◌then◌else◌, ◌>>=◌, length, get_or, drop, add64, u64_mod,
}
use stb_e_bpf.ProcNet.{skip_space, is_digit, read_digits}

-- A numeral of base ten; one of 2^64 or more is the greatest number.
unfoldable pub read_decimal : List ℕ → Option (ℕ × List ℕ)
read_decimal [] = none
read_decimal (c ∷ s) =
    let r = read_digits 10 0 (c ∷ s) in
    if is_digit 10 c then some (min r.0 (u64_mod - 1), r.1) else none

-- `%llu`, behind white space and a sign.
unfoldable pub read_ull : List ℕ → Option (ℕ × List ℕ)
read_ull s = elim (skip_space s) [
  | [] ↦ none
  | c ∷ rest ↦
      if c == b'-'
      then (read_decimal rest >>= λ r. some ((u64_mod - r.0) % u64_mod, r.1))
      else if c == b'+'
      then read_decimal rest
      else read_decimal (c ∷ rest)
]

-- Several of them, up to the first that fails.
unfoldable pub read_ulls : ℕ → List ℕ → List ℕ
read_ulls zero s = []
read_ulls (suc n) s = elim (read_ull s) [ none ↦ [] | some (v, rest) ↦ v ∷ read_ulls n rest ]

-- `%63[^:]` with the text behind it.
unfoldable pub take_name : ℕ → List ℕ → List ℕ × List ℕ
take_name zero s = ([], s)
take_name (suc room) [] = ([], [])
take_name (suc room) (c ∷ s) =
    let more = take_name room s in if c == b':' then ([], c ∷ s) else (c ∷ more.0, more.1)

-- The numbers behind a colon.
unfoldable pub behind_colon : List ℕ → List ℕ
behind_colon [] = []
behind_colon (c ∷ s) = let numbers = read_ulls 9 s in if c == b':' then numbers else []

-- " %63[^:]: %llu %*u %*u %*u %*u %*u %*u %*u %llu": the two numbers, if all is there.
unfoldable pub scan_dev : List ℕ → Option (ℕ × ℕ)
scan_dev line =
    let (name, rest) = take_name 63 (skip_space line) in
    let numbers = behind_colon rest in
    if length name == 0
    then none
    else if length numbers == 9
    then some (get_or numbers 0 0, get_or numbers 8 0)
    else none

-- The loop over the lines.
unfoldable pub add_lines : List (List ℕ) → ℕ × ℕ → ℕ × ℕ
add_lines [] t = t
add_lines (line ∷ lines) (rx, tx) = elim (scan_dev line) [
  | none ↦ add_lines lines (rx, tx)
  | some (r, s) ↦ add_lines lines (add64 rx r, add64 tx s)
]

-- `proc_net_read_dev`: the two totals, or `none` for -1.
unfoldable pub proc_net_read_dev : Option (List (List ℕ)) → Option (ℕ × ℕ)
proc_net_read_dev none = none
proc_net_read_dev (some lines) = some (add_lines (drop 2 lines) (0, 0))
