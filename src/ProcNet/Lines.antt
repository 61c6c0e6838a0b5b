-- ===== src/ProcNet/Lines.antt =====
-- What becomes of the lines that the kernel writes.
use stb_e_bpf.Base.{
  ℕ, zero, suc, ◌+◌, ◌-◌, ◌*◌, ◌≤◌, ◌<◌, ◌≡◌, refl, ap, ◌∙◌, Bool, true, false, none, some, List,
  [], ◌∷◌, ◌++◌, arith, ltb, ◌==◌, length, replicate, All, Option, if◌then◌else◌, u16_mod, u8_mod,
}
use stb_e_bpf.ProcNet.{
  Directive, is_space, skip_space, digit_value, is_digit, read_digits, read_unsigned, read_number,
  sscanf, proc_format, parse_line, parse_lines, parse_proc_net_file, skipped, number, space, Line,
  taken, undefined,
}
use stb_e_bpf.Flow.{ProcNetEntry, ipproto_tcp, ipproto_udp}

-- A line as the kernel writes it: the slot's number, padded with spaces and followed by a colon,
-- and then anything.
abbrev pub kernel_line : ℕ → List ℕ → List ℕ → List ℕ
kernel_line pad slot rest = replicate pad 0x20 ++ (slot ++ (b':' ∷ rest))

-- A decimal digit.
abbrev pub IsDecimal : ℕ → Type 0
IsDecimal c = (b'0' ≤ c) × (c ≤ b'9')

skip_pad : (pad : ℕ) (s : List ℕ) → skip_space (replicate pad 0x20 ++ s) ≡ skip_space s
unfolding skip_space is_space
skip_pad zero s = refl
skip_pad (suc pad) s = skip_pad pad s

digit_value-decimal : (c : ℕ) → IsDecimal c → digit_value c ≡ some (c - b'0')
unfolding digit_value
digit_value-decimal c d = ground (arith, d.0)

decimal_digit : (c : ℕ) → IsDecimal c → is_digit 10 c ≡ true
unfolding is_digit
decimal_digit c d = ground (arith, digit_value-decimal c d)

skip_space-decimal : (c : ℕ) (s : List ℕ) → IsDecimal c → skip_space (c ∷ s) ≡ c ∷ s
unfolding skip_space is_space
skip_space-decimal c s d = ground arith

colon : is_digit 10 b':' ≡ false
unfolding digit_value is_digit
colon = refl

read_slot :
    (slot rest : List ℕ) (value : ℕ)
    → All IsDecimal slot
    → (n : ℕ) × (read_digits 10 value (slot ++ (b':' ∷ rest)) ≡ (n, b':' ∷ rest))
unfolding read_digits
read_slot [] rest value d = (value, rw (colon, read_digits) refl)
read_slot (c ∷ slot) rest value d =
    let (n, e) = read_slot slot rest (value * 10 + (c - b'0')) d.1 in
    (n, rw (decimal_digit c d.0, digit_value-decimal c d.0, read_digits) e)

read_unsigned-slot :
    (c : ℕ) (slot rest : List ℕ)
    → IsDecimal c
    → read_unsigned 10 (c ∷ (slot ++ (b':' ∷ rest)))
      ≡ some (read_digits 10 0 (c ∷ (slot ++ (b':' ∷ rest))))
unfolding read_unsigned
read_unsigned-slot c [] rest d = let t = decimal_digit c d in ground arith
read_unsigned-slot c (x ∷ slot) rest d = let t = decimal_digit c d in ground arith

-- The slot's number is read up to the colon.
read_number-slot :
    (c : ℕ) (slot rest : List ℕ)
    → All IsDecimal (c ∷ slot)
    → (n : ℕ) × (read_number 10 (c ∷ (slot ++ (b':' ∷ rest))) ≡ some (n, b':' ∷ rest))
unfolding read_number
read_number-slot c slot rest d =
    let (n, e) = read_slot (c ∷ slot) rest 0 d in
    let unsigned = read_unsigned-slot c slot rest d.0 ∙ ap some e in
    let minus : (c == b'-') ≡ false = ground (arith, d.0) in
    let plus : (c == b'+') ≡ false = ground (arith, d.0) in
    (
      n,
      rw (skip_space-decimal c (slot ++ (b':' ∷ rest)) d.0, read_number)
          (rw (minus, plus) unsigned),
    )

-- No numeral starts with a colon.
read_number-colon : (rest : List ℕ) → read_number 16 (b':' ∷ rest) ≡ none
unfolding read_number skip_space is_space read_unsigned digit_value is_digit
read_number-colon [] = refl
read_number-colon (c ∷ rest) = refl

-- A number that is not stored and then, behind white space, one that fails.
sscanf-fails :
    (ds : List Directive) (s s' : List ℕ) (n : ℕ)
    → read_number 10 s ≡ some (n, s')
    → read_number 16 (skip_space s') ≡ none
    → sscanf (number 10 false ∷ space ∷ number 16 true ∷ ds) s ≡ []
unfolding sscanf
sscanf-fails ds s s' n first second = ground (arith, first, second)

skip_space-colon : (rest : List ℕ) → skip_space (b':' ∷ rest) ≡ b':' ∷ rest
unfolding skip_space is_space
skip_space-colon rest = refl

sscanf-kernel :
    (ds : List Directive) (pad c : ℕ) (slot rest : List ℕ)
    → All IsDecimal (c ∷ slot)
    → sscanf
        (space ∷ number 10 false ∷ space ∷ number 16 true ∷ ds)
        (kernel_line pad (c ∷ slot) rest)
      ≡ []
unfolding sscanf
sscanf-kernel ds pad c slot rest d =
    let (n, e) = read_number-slot c slot rest d in
    let start =
      skip_pad pad (c ∷ (slot ++ (b':' ∷ rest)))
      ∙ skip_space-decimal c (slot ++ (b':' ∷ rest)) d.0 in
    ap (λ s. sscanf (number 10 false ∷ space ∷ number 16 true ∷ ds) s) start
    ∙ sscanf-fails ds (c ∷ (slot ++ (b':' ∷ rest))) (b':' ∷ rest) n e
        (ap (λ s. read_number 16 s) (skip_space-colon rest) ∙ read_number-colon rest)

-- What is stored decides what becomes of a line.
parse_line-none :
    (unset : ℕ → ℕ) (old_version : ℕ) (is_tcp : Bool) (line : List ℕ)
    → sscanf proc_format line ≡ []
    → parse_line unset old_version is_tcp line ≡ skipped
unfolding parse_line
parse_line-none unset old_version is_tcp line e =
    let few : ltb (length (sscanf proc_format line)) 5 ≡ true = ground (arith, ap length e) in
    rw few refl

-- A line that the kernel writes is skipped, whatever stands in it: behind the slot's number the
-- format wants the first address, and the line has a colon there.
pub parse_line-kernel :
    (unset : ℕ → ℕ) (old_version : ℕ) (is_tcp : Bool) (pad : ℕ) (slot rest : List ℕ)
    → 0 < length slot
    → All IsDecimal slot
    → parse_line unset old_version is_tcp (kernel_line pad slot rest) ≡ skipped
parse_line-kernel unset old_version is_tcp pad [] rest some_digit d = absurd (omega arith)
parse_line-kernel unset old_version is_tcp pad (c ∷ slot) rest some_digit d =
    parse_line-none unset old_version is_tcp (kernel_line pad (c ∷ slot) rest)
      (sscanf-kernel _ pad c slot rest d)

-- The lines of a file as the kernel writes it, each with its padding, its slot and the rest.
abbrev pub kernel_lines : List (ℕ × List ℕ × List ℕ) → List (List ℕ)
kernel_lines [] = []
kernel_lines ((pad, slot, rest) ∷ ls) = kernel_line pad slot rest ∷ kernel_lines ls

abbrev pub AreSlots : List (ℕ × List ℕ × List ℕ) → Type 0
AreSlots [] = Unit
AreSlots ((pad, slot, rest) ∷ ls) = (0 < length slot) × All IsDecimal slot × AreSlots ls

parse_lines-kernel :
    (unset : ℕ → ℕ) (old_version : ℕ) (is_tcp : Bool) (left : ℕ) (ls : List (ℕ × List ℕ × List ℕ))
    → AreSlots ls
    → parse_lines unset old_version is_tcp left (kernel_lines ls) ≡ some []
unfolding parse_lines
parse_lines-kernel unset old_version is_tcp zero ls h = refl
parse_lines-kernel unset old_version is_tcp (suc left) [] h = refl
parse_lines-kernel unset old_version is_tcp (suc left) ((pad, slot, rest) ∷ ls) h =
    let (some_digit, d, h') = h in
    rw (parse_line-kernel unset old_version is_tcp pad slot rest some_digit d, parse_lines)
      (parse_lines-kernel unset old_version is_tcp (suc left) ls h')

-- A file that has a heading and lines as the kernel writes them gives no entry at all, however
-- many lines it has: reading it never shows a connection.
pub parse_proc_net_file-kernel :
    (unset : ℕ → ℕ) (old_version : ℕ) (is_tcp : Bool) (max_entries : ℕ) (heading : List ℕ)
    (ls : List (ℕ × List ℕ × List ℕ))
    → AreSlots ls
    → parse_proc_net_file unset old_version is_tcp max_entries (some (heading ∷ kernel_lines ls))
      ≡ some []
unfolding parse_proc_net_file
parse_proc_net_file-kernel unset old_version is_tcp max_entries heading ls h =
    parse_lines-kernel unset old_version is_tcp max_entries ls h

-- Every entry that is stored has the protocol that was asked for and fields of their widths.
pub record IsStored (is_tcp : Bool) (e : ProcNetEntry) : Type 0 where
  pub protocol : e.protocol ≡ (if is_tcp then ipproto_tcp else ipproto_udp)
  pub local_port : e.local_port < u16_mod
  pub remote_port : e.remote_port < u16_mod
  pub state : e.state < u8_mod

-- What a run of the loop stores, if it is defined: at most as many entries as there is room for.
abbrev pub Stored : Bool → ℕ → Option (List ProcNetEntry) → Type 0
Stored is_tcp left none = Unit
Stored is_tcp left (some es) = (length es ≤ left) × All (λ e. IsStored is_tcp e) es

abbrev LineStored : Bool → Line → Type 0
LineStored is_tcp skipped = Unit
LineStored is_tcp undefined = Unit
LineStored is_tcp (taken e) = IsStored is_tcp e

parse_line-stored :
    (unset : ℕ → ℕ) (old_version : ℕ) (is_tcp : Bool) (line : List ℕ)
    → LineStored is_tcp (parse_line unset old_version is_tcp line)
unfolding parse_line
parse_line-stored unset old_version is_tcp line = ground arith

-- The loop stores at most as many entries as there is room for, each with the protocol that was
-- asked for and with ports and state within their widths, for lines of any form.
pub parse_lines-Stored :
    (unset : ℕ → ℕ) (old_version : ℕ) (is_tcp : Bool) (left : ℕ) (lines : List (List ℕ))
    → Stored is_tcp left (parse_lines unset old_version is_tcp left lines)
unfolding parse_lines
parse_lines-Stored unset old_version is_tcp zero lines = (omega arith, tt)
parse_lines-Stored unset old_version is_tcp (suc left) [] = (omega arith, tt)
parse_lines-Stored unset old_version is_tcp (suc left) (line ∷ lines) = ground (
  arith,
  parse_line-stored unset old_version is_tcp line,
  parse_lines-Stored unset old_version is_tcp left lines,
  parse_lines-Stored unset old_version is_tcp (suc left) lines,
)
