-- ===== src/ProcNet.antt =====
-- src/proc_net.c: the table of connections under /proc/net. A file is the list of its lines, each
-- below the 1024 bytes of the line buffer. The conversions of `sscanf` are written out for the
-- directives that the code uses and for numerals below 2^32; what a variable holds before it is
-- assigned is a parameter.
pub mod Lines
pub mod Dev
mod Checks
use stb_e_bpf.Base.{
  ℕ, zero, suc, ◌+◌, ◌-◌, ◌*◌, ◌/◌, ◌%◌, ◌^◌, ◌≤◌, ◌<◌, min, max, bit_and, bit_or, bit_xor, ◌≡◌,
  refl, sym, ap, ◌∙◌, ◌≢◌, ◌↔◌, ◌⊎◌, inl, inr, Bool, true, false, not, ◌&&◌, ◌||◌, Option, none,
  some, List, [], ◌∷◌, ◌++◌, map, arith, ltb, leb, ◌==◌, if◌then◌else◌, ==_iff, ltb→lt, Bool-cases,
  Option-cases, ◌>>=◌, length, get_elem?, get_or, set, modify, take, drop, replicate, length-append,
  length-set, length-modify, length-take, length-drop, get_elem?-append, slice-append, slice-behind,
  get_elem?-append_left, length-replicate, slice, slice-some, All, add64, sub64, add32, has_bits,
  be16, be32, le16, le32, u8_mod, u16_mod, u32_mod, u64_mod, codes, strncpy, length-strncpy,
  decimal,
}
use stb_e_bpf.Flow.{ProcNetEntry, ipproto_tcp, ipproto_udp}

-- A directive of the format: white space, a character, or a number in a base that is stored or not.
pub data Directive : Type 0 where
  space : Directive
  literal : ℕ → Directive
  number : ℕ → Bool → Directive

unfoldable pub is_space : ℕ → Bool
is_space c = c == 0x20 || leb 0x09 c && leb c 0x0D

unfoldable pub skip_space : List ℕ → List ℕ
skip_space [] = []
skip_space (c ∷ s) = let rest = skip_space s in if is_space c then rest else c ∷ s

-- The value of a digit, in any base up to sixteen.
unfoldable pub digit_value : ℕ → Option ℕ
digit_value c =
    if leb b'0' c && leb c b'9'
    then some (c - b'0')
    else if leb b'a' c && leb c b'f'
    then some (c - b'a' + 10)
    else if leb b'A' c && leb c b'F'
    then some (c - b'A' + 10)
    else none

unfoldable pub is_digit : ℕ → ℕ → Bool
is_digit base c = elim (digit_value c) [ none ↦ false | some d ↦ ltb d base ]

-- The longest numeral, with the value so far.
unfoldable pub read_digits : ℕ → ℕ → List ℕ → ℕ × List ℕ
read_digits base value [] = (value, [])
read_digits base value (c ∷ s) =
    let d : ℕ = elim (digit_value c) [ none ↦ 0 | some d ↦ d ] in
    let rest = read_digits base (value * base + d) s in
    if is_digit base c then rest else (value, c ∷ s)

-- A numeral behind its sign, with the prefix 0x that base sixteen allows.
unfoldable pub read_unsigned : ℕ → List ℕ → Option (ℕ × List ℕ)
read_unsigned base [] = none
read_unsigned base (c ∷ []) = if is_digit base c then some (read_digits base 0 (c ∷ [])) else none
read_unsigned base (c ∷ d ∷ s) =
    if base == 16 && c == b'0' && (d == b'x' || d == b'X')
    then some (read_digits base 0 s)
    else if is_digit base c
    then some (read_digits base 0 (c ∷ d ∷ s))
    else none

-- A number, behind white space: a negative one is the unsigned number that the variable gets.
unfoldable pub read_number : ℕ → List ℕ → Option (ℕ × List ℕ)
read_number base s = elim (skip_space s) [
  | [] ↦ none
  | c ∷ rest ↦
      if c == b'-'
      then (read_unsigned base rest >>= λ r. some ((u32_mod - r.0 % u32_mod) % u32_mod, r.1))
      else if c == b'+'
      then read_unsigned base rest
      else read_unsigned base (c ∷ rest)
]

-- `sscanf`: the numbers that are stored, up to the first directive that fails.
unfoldable pub sscanf : List Directive → List ℕ → List ℕ
sscanf [] s = []
sscanf (space ∷ ds) s = sscanf ds (skip_space s)
sscanf (literal k ∷ ds) [] = []
sscanf (literal k ∷ ds) (c ∷ s) = let rest = sscanf ds s in if c == k then rest else []
sscanf (number base stored ∷ ds) s = elim (read_number base s) [
  | none ↦ []
  | some (n, s') ↦ let rest = sscanf ds s' in if stored then n ∷ rest else rest
]

-- " %*d %x:%x %x:%x %x %x:%x %*x:%x %*x %*d %*d %u %u".
abbrev pub proc_format : List Directive
proc_format =
    space
    ∷ number 10 false
    ∷ space
    ∷ number 16 true
    ∷ literal b':'
    ∷ number 16 true
    ∷ space
    ∷ number 16 true
    ∷ literal b':'
    ∷ number 16 true
    ∷ space
    ∷ number 16 true
    ∷ space
    ∷ number 16 true
    ∷ literal b':'
    ∷ number 16 true
    ∷ space
    ∷ number 16 false
    ∷ literal b':'
    ∷ number 16 true
    ∷ space
    ∷ number 16 false
    ∷ space
    ∷ number 10 false
    ∷ space
    ∷ number 10 false
    ∷ space
    ∷ number 10 true
    ∷ space
    ∷ number 10 true
    ∷ []

-- What becomes of a line. The format stores ten numbers and the call passes nine pointers, so a
-- line with all ten is undefined behaviour.
pub data Line : Type 0 where
  skipped undefined : Line
  taken : ProcNetEntry → Line

-- The body of the loop. `unset i` is what the i-th variable holds without an assignment, and
-- `old_version` what the array's element holds in the field that the code leaves alone.
unfoldable pub parse_line : (ℕ → ℕ) → ℕ → Bool → List ℕ → Line
parse_line unset old_version is_tcp line =
    let stored = sscanf proc_format line in
    let field = λ (i : ℕ). get_or stored i (unset i) in
    if ltb (length stored) 5
    then skipped
    else if leb 10 (length stored)
    then undefined
    else taken (record {
      local_ip = field 0;
      local_port = field 1 % u16_mod;
      remote_ip = field 2;
      remote_port = field 3 % u16_mod;
      state = field 4 % u8_mod;
      protocol = if is_tcp then ipproto_tcp else ipproto_udp;
      ip_version = old_version;
      rx_queue = field 5;
      tx_queue = field 6;
      uid = field 7;
      inode = field 8;
    })

-- The loop, with the number of entries that may still come; `none` is undefined behaviour.
unfoldable pub parse_lines : (ℕ → ℕ) → ℕ → Bool → ℕ → List (List ℕ) → Option (List ProcNetEntry)
parse_lines unset old_version is_tcp zero lines = some []
parse_lines unset old_version is_tcp (suc left) [] = some []
parse_lines unset old_version is_tcp (suc left) (line ∷ lines) =
    elim (parse_line unset old_version is_tcp line) [
      | undefined ↦ none
      | skipped ↦ parse_lines unset old_version is_tcp (suc left) lines
      | taken e ↦ parse_lines unset old_version is_tcp left lines >>= λ es. some (e ∷ es)
    ]

-- `parse_proc_net_file`: `none` as file is one that cannot be opened. The first line is a heading.
unfoldable pub parse_proc_net_file :
    (ℕ → ℕ) → ℕ → Bool → ℕ → Option (List (List ℕ)) → Option (List ProcNetEntry)
parse_proc_net_file unset old_version is_tcp max_entries none = some []
parse_proc_net_file unset old_version is_tcp max_entries (some []) = some []
parse_proc_net_file unset old_version is_tcp max_entries (some (heading ∷ lines)) =
    parse_lines unset old_version is_tcp max_entries lines
