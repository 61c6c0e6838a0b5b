-- ===== src/HostMetrics/Memory.antt =====
-- The share of the memory that src/host_metrics.c reports.
use stb_e_bpf.Base.{
  ℕ, ◌-◌, ◌≤◌, ◌<◌, ◌≡◌, refl, ◌∙◌, true, false, none, some, List, [], ◌∷◌, ◌++◌, arith, ◌==◌,
  replicate, All, sub64, digits_of, u64_mod, codes,
}
use stb_e_bpf.ProcNet.Dev.{read_ull}
use stb_e_bpf.ProcNet.Dev.Numbers.{Ends, read_ull-decimal}
use stb_e_bpf.ProcNet.Dev.Totals.{skip_pad}
use stb_e_bpf.HostMetrics.{share, match_text, scan_field, scan_memory, read_memory_percent}

-- A line of /proc/meminfo: a name, blanks, a number and a unit.
abbrev pub memory_line : List ℕ → ℕ → ℕ → List ℕ → List ℕ
memory_line name pad n unit = name ++ (replicate pad 0x20 ++ digits_of n n unit)

match_text-append : (t s : List ℕ) → match_text t (t ++ s) ≡ some s
unfolding match_text
match_text-append [] s = refl
match_text-append (c ∷ t) s =
    let same : (c == c) ≡ true = ground arith in rw same (match_text-append t s)

read_ull-pad : (pad : ℕ) (s : List ℕ) → read_ull (replicate pad 0x20 ++ s) ≡ read_ull s
unfolding read_ull
read_ull-pad pad s = rw (skip_pad pad s, read_ull) refl

scan_field-memory_line :
    (name : List ℕ) (pad n : ℕ) (unit : List ℕ)
    → n < u64_mod
    → Ends unit
    → scan_field name (memory_line name pad n unit) ≡ some n
unfolding scan_field
scan_field-memory_line name pad n unit small ends =
    rw (match_text-append name (replicate pad 0x20 ++ digits_of n n unit))
      (rw (read_ull-pad pad (digits_of n n unit)) (rw (read_ull-decimal n unit small ends) refl))

-- A line of another name.
abbrev pub IsOther : List ℕ → Type 0
IsOther line =
    (scan_field (codes "MemTotal:") line ≡ none) × (scan_field (codes "MemAvailable:") line ≡ none)

scan_memory-others :
    (others lines : List (List ℕ)) (total available : ℕ)
    → All IsOther others
    → scan_memory (others ++ lines) total available ≡ scan_memory lines total available
unfolding scan_memory
scan_memory-others [] lines total available h = refl
scan_memory-others (line ∷ others) lines total available h =
    rw (h.0.0, scan_memory) (rw (h.0.1) (scan_memory-others others lines total available h.1))

available_other :
    (pad n : ℕ) (unit : List ℕ)
    → scan_field (codes "MemTotal:") (memory_line (codes "MemAvailable:") pad n unit) ≡ none
unfolding scan_field match_text codes
available_other pad n unit = refl

-- For a table whose first line is the total, which is not zero, and which has the available memory
-- after any lines of other names: the share is that of what is not available, whatever follows.
pub read_memory_percent-kernel :
    (pad pad' total available : ℕ) (unit unit' : List ℕ) (others rest : List (List ℕ))
    → 0 < total
    → total < u64_mod
    → available ≤ total
    → Ends unit
    → Ends unit'
    → All IsOther others
    → read_memory_percent (
        some (
          memory_line (codes "MemTotal:") pad total unit
          ∷ (others ++ (memory_line (codes "MemAvailable:") pad' available unit' ∷ rest))))
      ≡ share (total - available) total
unfolding read_memory_percent scan_memory
read_memory_percent-kernel pad pad' total available unit unit' others rest some_total small less e
      e' o =
    let lines = memory_line (codes "MemAvailable:") pad' available unit' ∷ rest in
    let scanned : scan_memory (memory_line (codes "MemTotal:") pad total unit ∷ (others ++ lines)) 0
          0
        ≡ (total, available) =
      rw (scan_field-memory_line (codes "MemTotal:") pad total unit small e, scan_memory)
        (scan_memory-others others lines total 0 o
          ∙ rw (available_other pad' available unit', scan_memory)
              (rw
                (scan_field-memory_line (codes "MemAvailable:") pad' available unit' (omega arith)
                  e')
                refl)) in
    let positive : (total == 0) ≡ false = ground arith in
    let part : sub64 total available ≡ total - available = omega arith in
    rw scanned (rw positive (rw part refl))
