-- ===== src/BpfLoader/Elf/Sections.antt =====
-- One round of the loop over the sections in `parse_bpf_elf` of src/bpf_loader.c.
use stb_e_bpf.Base.{
  ℕ, suc, ◌+◌, ◌*◌, ◌≤◌, ◌<◌, ◌≡◌, refl, inl, inr, Bool-cases, Bool, true, false, not, ◌&&◌, some,
  List, arith, ◌==◌, length, take, drop, add64,
}
use stb_e_bpf.BpfLoader.Elf.{
  File, fread, Search, is_program, int_product, filled, load, try_section, search, is_elf64,
  by_name, visit,
}
use stb_e_bpf.BpfLoader.Elf.Reads.{
  word, at_pos, field-word, fread-cur, fseek_set-at, header_of, section_at, names_at, section_of,
  name_at, read_section-at,
}

-- A file whose section headers, the first `n` of them, and the header of the names' section are
-- inside it.
pub record IsElf (bytes : List ℕ) (n : ℕ) : Type 0 where
  pub long : 64 ≤ length bytes
  pub small : length bytes < 0x8000_0000
  pub ident : is_elf64 (take 16 bytes) ≡ true
  pub headers : (i : ℕ) → i < n → section_at bytes i + 40 ≤ length bytes
  pub products : (i : ℕ) → i < n → i * word 2 58 bytes < 0x8000_0000
  pub names : section_at bytes (word 2 62 bytes) + 32 ≤ length bytes
  pub names_product : word 2 62 bytes * word 2 58 bytes < 0x8000_0000

-- A section with bytes of its own, whose name says that it is the program.
abbrev pub has_bytes : List ℕ → ℕ → Bool
has_bytes bytes o = word 4 (o + 4) bytes == 1 && not (word 8 (o + 32) bytes == 0)

abbrev pub is_wanted : List ℕ → ℕ → Bool
is_wanted bytes o = has_bytes bytes o && is_program (name_at bytes o)

int_product-some : (a b : ℕ) → a * b < 0x8000_0000 → int_product a b ≡ some (a * b)
unfolding int_product
int_product-some a b h = ground arith

-- The test of a section that has bytes.
try_section-at :
    (malloc : ℕ → Bool) (bytes : List ℕ) (n p o : ℕ) (next : File → Search)
    → IsElf bytes n
    → names_at bytes + word 4 o bytes < 0x8000_0000
    → (q : ℕ) × (try_section malloc (header_of bytes) (section_of bytes o) (at_pos bytes p) next
        ≡ elim (is_program (name_at bytes o)) [
          | true ↦ load malloc (word 8 (o + 24) bytes) (word 8 (o + 32) bytes) (at_pos bytes q)
          | false ↦ next (at_pos bytes q)
        ])
unfolding try_section by_name
try_section-at malloc bytes n p o next v low =
    let at = section_at bytes (word 2 62 bytes) + 24 in
    let name = names_at bytes + word 4 o bytes in
    let sum : add64 (add64 (word 8 40 bytes) (word 2 62 bytes * word 2 58 bytes)) 24 ≡ at =
      omega (arith, v.names, v.small) in
    let sum_name : add64 (names_at bytes) (word 4 o bytes) ≡ name = omega (arith, low) in
    (
      name + length (take 31 (drop name bytes)),
      rw (int_product-some (word 2 62 bytes) (word 2 58 bytes) v.names_product) (
          rw sum (
            rw (fseek_set-at bytes p at (omega (arith, v.names, v.small))) (
              rw
                (
                  field-word bytes at 8 (omega (arith, v.names)),
                  fread-cur bytes at 8 (omega (arith, v.names)),
                )
                (rw (sum_name, filled)
                  (rw (fseek_set-at bytes (at + 8) name low) (unfold fread in refl)))))),
    )

-- A section whose header has been read: it is loaded if it is wanted, and passed by otherwise.
visit-at :
    (malloc : ℕ → Bool) (bytes : List ℕ) (n p o : ℕ) (next : File → Search)
    → IsElf bytes n
    → names_at bytes + word 4 o bytes < 0x8000_0000
    → (q : ℕ) × (visit malloc (header_of bytes) (section_of bytes o) (at_pos bytes p) next
        ≡ elim (is_wanted bytes o) [
          | true ↦ load malloc (word 8 (o + 24) bytes) (word 8 (o + 32) bytes) (at_pos bytes q)
          | false ↦ next (at_pos bytes q)
        ])
unfolding visit
visit-at malloc bytes n p o next v low = elim (Bool-cases (word 4 (o + 4) bytes == 1)) [
  | inr other ↦ (p, rw (other, visit, filled) refl)
  | inl progbits ↦ elim (Bool-cases (word 8 (o + 32) bytes == 0)) [
    | inl empty ↦ (p, rw (progbits, visit, filled) (rw (empty, filled) refl))
    | inr full ↦
        let (q, tried) = try_section-at malloc bytes n p o next v low in
        (q, rw (progbits, visit, filled) (rw (full, filled) tried))
  ]
]

-- One section of the table.
pub search_step :
    (malloc : ℕ → Bool) (bytes : List ℕ) (n left i p : ℕ)
    → IsElf bytes n
    → i < n
    → names_at bytes + word 4 (section_at bytes i) bytes < 0x8000_0000
    → (q : ℕ) × (search malloc (header_of bytes) (suc left) i (at_pos bytes p)
        ≡ elim (is_wanted bytes (section_at bytes i)) [
          | true ↦
              load malloc
                (word 8 (section_at bytes i + 24) bytes)
                (word 8 (section_at bytes i + 32) bytes)
                (at_pos bytes q)
          | false ↦ search malloc (header_of bytes) left (i + 1) (at_pos bytes q)
        ])
unfolding search
search_step malloc bytes n left i p v inside low =
    let o = section_at bytes i in
    let sum : add64 (word 8 40 bytes) (i * word 2 58 bytes) ≡ o =
      omega (arith, v.headers i inside, v.small) in
    let product = int_product-some i (word 2 58 bytes) (v.products i inside) in
    let header = read_section-at bytes p o (v.headers i inside) v.small in
    let (q, seen) =
      visit-at malloc bytes n (o + 40) o (λ f2. search malloc (header_of bytes) left (i + 1) f2) v
        low in
    (q, rw (product, filled) (rw (sum, header) seen))
