-- ===== src/ProcNet/Dev/Totals.antt =====
-- What src/proc_net.c makes of the table of interfaces that the kernel writes.
use stb_e_bpf.Base.{
  ℕ, zero, suc, ◌+◌, ◌%◌, ◌≤◌, ◌<◌, ◌≡◌, refl, ap, ◌∙◌, true, false, some, List, [], ◌∷◌, ◌++◌,
  arith, ◌==◌, length, length-take, get_or, take, map, replicate, All, add64, u64_mod,
}
use stb_e_bpf.ProcNet.{is_space, skip_space}
use stb_e_bpf.ProcNet.Dev.{take_name, behind_colon, scan_dev, add_lines, proc_net_read_dev}
use stb_e_bpf.ProcNet.Dev.Numbers.{spaced, read_ulls-spaced}

-- A line of the table: a name that is padded and ends in a colon, and counters.
pub record Interface : Type 0 where
  pub pad : ℕ
  pub name : List ℕ
  pub counters : List ℕ

abbrev pub dev_line : Interface → List ℕ
dev_line i = replicate i.pad 0x20 ++ (i.name ++ (b':' ∷ spaced i.counters []))

-- A byte of a name.
abbrev pub IsLetter : ℕ → Type 0
IsLetter c = (is_space c ≡ false) × ((c == b':') ≡ false)

-- A name of 1 to 63 bytes, none of which is a colon or a blank, and nine counters of 64 bits or
-- more of them.
pub record IsInterface (i : Interface) : Type 0 where
  pub named : 0 < length i.name
  pub short : length i.name ≤ 63
  pub letters : All IsLetter i.name
  pub many : 9 ≤ length i.counters
  pub small : All (λ n. n < u64_mod) i.counters

pub skip_pad : (pad : ℕ) (s : List ℕ) → skip_space (replicate pad 0x20 ++ s) ≡ skip_space s
unfolding skip_space is_space
skip_pad zero s = refl
skip_pad (suc pad) s = skip_pad pad s

skip_name :
    (name rest : List ℕ)
    → 0 < length name
    → All IsLetter name
    → skip_space (name ++ rest) ≡ name ++ rest
unfolding skip_space
skip_name [] rest h l = absurd (omega arith)
skip_name (c ∷ name) rest h l = rw (l.0.0) refl

take_name-name :
    (room : ℕ) (name rest : List ℕ)
    → length name ≤ room
    → All IsLetter name
    → take_name room (name ++ (b':' ∷ rest)) ≡ (name, b':' ∷ rest)
unfolding take_name
take_name-name zero [] rest h l = refl
take_name-name zero (c ∷ name) rest h l = absurd (omega arith)
take_name-name (suc room) [] rest h l = refl
take_name-name (suc room) (c ∷ name) rest h l =
    rw (l.0.1) (rw (take_name-name room name rest (omega arith) l.1) refl)

get_or-take : (xs : List ℕ) (n k : ℕ) → k < n → get_or (take n xs) k 0 ≡ get_or xs k 0
get_or-take [] zero k h = refl
get_or-take [] (suc n) k h = refl
get_or-take (x ∷ xs) zero k h = absurd (omega arith)
get_or-take (x ∷ xs) (suc n) zero h = refl
get_or-take (x ∷ xs) (suc n) (suc k) h = get_or-take xs n k (omega arith)

-- The two counters of a line.
scan_dev-dev_line :
    (i : Interface)
    → IsInterface i
    → scan_dev (dev_line i) ≡ some (get_or i.counters 0 0, get_or i.counters 8 0)
unfolding scan_dev behind_colon
scan_dev-dev_line i v =
    let tail = b':' ∷ spaced i.counters [] in
    let start = skip_pad i.pad (i.name ++ tail) ∙ skip_name i.name tail v.named v.letters in
    let name = take_name-name 63 i.name (spaced i.counters []) v.short v.letters in
    let numbers = read_ulls-spaced 9 i.counters [] v.many v.small tt in
    let there : (length i.name == 0) ≡ false = ground (arith, v.named) in
    let all : (length (take 9 i.counters) == 9) ≡ true =
      ground (arith, length-take 9 i.counters, v.many) in
    rw start (
      rw name (
        rw there (
          rw (numbers, behind_colon)
            (rw all (
              rw (get_or-take i.counters 9 0 (omega arith))
                (rw (get_or-take i.counters 9 8 (omega arith)) refl))))))

-- Totals over the interfaces.
unfoldable pub received : List Interface → ℕ
received [] = 0
received (i ∷ is) = get_or i.counters 0 0 + received is

unfoldable pub transmitted : List Interface → ℕ
transmitted [] = 0
transmitted (i ∷ is) = get_or i.counters 8 0 + transmitted is

add_lines-totals :
    (is : List Interface) (rx tx : ℕ)
    → All IsInterface is
    → rx < u64_mod
    → tx < u64_mod
    → add_lines (map dev_line is) (rx, tx)
      ≡ ((rx + received is) % u64_mod, (tx + transmitted is) % u64_mod)
unfolding add_lines received transmitted
add_lines-totals [] rx tx v r t =
    let rx' : rx ≡ (rx + 0) % u64_mod = omega arith in
    let tx' : tx ≡ (tx + 0) % u64_mod = omega arith in
    ap (λ a. (a, tx)) rx' ∙ ap (λ b. ((rx + 0) % u64_mod, b)) tx'
add_lines-totals (i ∷ is) rx tx v r t =
    let first = get_or i.counters 0 0 in
    let ninth = get_or i.counters 8 0 in
    let rx' : (add64 rx first + received is) % u64_mod ≡ (rx + (first + received is)) % u64_mod =
      omega arith in
    let tx' : (add64 tx ninth + transmitted is) % u64_mod
        ≡ (tx + (ninth + transmitted is)) % u64_mod =
      omega arith in
    rw (scan_dev-dev_line i v.0, add_lines)
      (add_lines-totals is (add64 rx first) (add64 tx ninth) v.1 (omega arith) (omega arith)
        ∙ ap (λ a. (a, (add64 tx ninth + transmitted is) % u64_mod)) rx'
        ∙ ap (λ b. ((rx + (first + received is)) % u64_mod, b)) tx')

-- For any table of interfaces as the kernel writes it, with two lines of headings: the totals are
-- the sums of the first counter and of the ninth over all interfaces, modulo 2^64.
pub proc_net_read_dev-kernel :
    (h1 h2 : List ℕ) (is : List Interface)
    → All IsInterface is
    → proc_net_read_dev (some (h1 ∷ h2 ∷ map dev_line is))
      ≡ some (received is % u64_mod, transmitted is % u64_mod)
unfolding proc_net_read_dev
proc_net_read_dev-kernel h1 h2 is v =
    let rx : (0 + received is) % u64_mod ≡ received is % u64_mod = omega arith in
    let tx : (0 + transmitted is) % u64_mod ≡ transmitted is % u64_mod = omega arith in
    ap some (
      add_lines-totals is 0 0 v (omega arith) (omega arith)
      ∙ ap (λ a. (a, (0 + transmitted is) % u64_mod)) rx
      ∙ ap (λ b. (received is % u64_mod, b)) tx)
