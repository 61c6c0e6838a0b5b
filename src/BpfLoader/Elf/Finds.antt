-- ===== src/BpfLoader/Elf/Finds.antt =====
-- Which program `parse_bpf_elf` of src/bpf_loader.c finds in an object file.
use stb_e_bpf.Base.{
  ℕ, zero, suc, ◌+◌, ◌-◌, ◌≤◌, ◌<◌, ◌≡◌, refl, ◌∙◌, Bool, true, false, some, List, arith, ◌==◌,
  length, length-take, take,
}
use stb_e_bpf.BpfLoader.Elf.{fseek_cur, undefined, load, search, with_header, parse_bpf_elf}
use stb_e_bpf.BpfLoader.Elf.Reads.{
  word, at_pos, length-got, field-word, fread-cur, fseek_set-at, header_of, section_at, names_at,
}
use stb_e_bpf.BpfLoader.Elf.Sections.{IsElf, is_wanted, search_step}

-- What the search has to know of the sections up to the one that is wanted, which is `k`.
pub record IsFirst (bytes : List ℕ) (k : ℕ) : Type 0 where
  pub low : (j : ℕ) → j ≤ k → names_at bytes + word 4 (section_at bytes j) bytes < 0x8000_0000
  pub others : (j : ℕ) → j < k → is_wanted bytes (section_at bytes j) ≡ false
  pub wanted : is_wanted bytes (section_at bytes k) ≡ true

search_found :
    (malloc : ℕ → Bool) (bytes : List ℕ) (n k more p : ℕ)
    → IsElf bytes n
    → k < n
    → IsFirst bytes k
    → (q : ℕ) × (search malloc (header_of bytes) (suc more) k (at_pos bytes p)
        ≡ load malloc
            (word 8 (section_at bytes k + 24) bytes)
            (word 8 (section_at bytes k + 32) bytes)
            (at_pos bytes q))
search_found malloc bytes n k more p v inside first =
    let (q, step) = search_step malloc bytes n more k p v inside (first.low k (omega arith)) in
    (q, step ∙ rw first.wanted refl)

-- The search from a section on that is `d` sections before that one.
search_finds :
    (malloc : ℕ → Bool) (bytes : List ℕ) (n d i k left more p : ℕ)
    → IsElf bytes n
    → k < n
    → IsFirst bytes k
    → i + d ≡ k
    → left ≡ d + suc more
    → (q : ℕ) × (search malloc (header_of bytes) left i (at_pos bytes p)
        ≡ load malloc
            (word 8 (section_at bytes k + 24) bytes)
            (word 8 (section_at bytes k + 32) bytes)
            (at_pos bytes q))
search_finds malloc bytes n zero i k left more p v inside first here rest =
    let here' : i ≡ k = omega arith in
    let rest' : left ≡ suc more = omega arith in
    rw (here', rest') (search_found malloc bytes n k more p v inside first)
search_finds malloc bytes n (suc d) i k left more p v inside first here rest =
    let rest' : left ≡ suc (d + suc more) = omega arith in
    rw rest' (
      let (q, step) =
        search_step malloc bytes n (d + suc more) i p v (omega arith) (first.low i (omega arith)) in
      let (q', later) =
        search_finds malloc bytes n d (i + 1) k (d + suc more) more q v inside first (omega arith)
          refl in
      (q', step ∙ (rw (first.others i (omega arith)) later)))

load-undefined :
    (malloc : ℕ → Bool) (bytes : List ℕ) (offset size p : ℕ)
    → malloc size ≡ true
    → size < 8
    → offset + size ≤ length bytes
    → length bytes < 0x8000_0000
    → load malloc offset size (at_pos bytes p) ≡ undefined
unfolding load
load-undefined malloc bytes offset size p m few inside small =
    rw (fseek_set-at bytes p offset (omega arith))
      (ground (arith, length-got bytes offset size inside))

-- The fields of the header.
with_header-at :
    (malloc : ℕ → Bool) (bytes : List ℕ) (n p : ℕ)
    → IsElf bytes n
    → with_header malloc (at_pos bytes p)
      ≡ search malloc (header_of bytes) (word 2 60 bytes) 0 (at_pos bytes 64)
unfolding with_header fseek_cur
with_header-at malloc bytes n p v = rw (fseek_set-at bytes p 16 (omega arith)) (
    rw (fread-cur bytes 16 2 (omega (arith, v.long))) (
      rw (fread-cur bytes 18 2 (omega (arith, v.long))) (
        rw
          (
            fread-cur bytes 40 8 (omega (arith, v.long)),
            field-word bytes 40 8 (omega (arith, v.long)),
          )
          (rw
            (
              fread-cur bytes 58 2 (omega (arith, v.long)),
              field-word bytes 58 2 (omega (arith, v.long)),
            )
            (rw
              (
                fread-cur bytes 60 2 (omega (arith, v.long)),
                field-word bytes 60 2 (omega (arith, v.long)),
              )
              (rw
                (
                  fread-cur bytes 62 2 (omega (arith, v.long)),
                  field-word bytes 62 2 (omega (arith, v.long)),
                )
                refl))))))

-- For such a file, the search comes to the first section that is wanted.
parse_bpf_elf-load :
    (malloc : ℕ → Bool) (bytes : List ℕ) (k : ℕ)
    → IsElf bytes (word 2 60 bytes)
    → k < word 2 60 bytes
    → IsFirst bytes k
    → (q : ℕ) × (parse_bpf_elf malloc (some bytes)
        ≡ load malloc
            (word 8 (section_at bytes k + 24) bytes)
            (word 8 (section_at bytes k + 32) bytes)
            (at_pos bytes q))
unfolding parse_bpf_elf
parse_bpf_elf-load malloc bytes k v inside first =
    let shnum = word 2 60 bytes in
    let long : (length (take 16 bytes) == 16) ≡ true =
      ground (arith, v.long, length-take 16 bytes) in
    let rest : shnum ≡ k + suc (shnum - k - 1) = omega arith in
    let (q, found) =
      search_finds malloc bytes shnum k 0 k shnum (shnum - k - 1) 64 v inside first (omega arith)
        rest in
    (
      q,
      rw long (
          rw v.ident (
            rw (fread-cur bytes 0 16 (omega (arith, v.long)))
              (with_header-at malloc bytes shnum 16 v ∙ found))),
    )

-- If that section has fewer than eight bytes, all in the file, the search reads behind the block
-- that it has allocated for them.
pub parse_bpf_elf_short :
    (malloc : ℕ → Bool) (bytes : List ℕ) (k : ℕ)
    → IsElf bytes (word 2 60 bytes)
    → k < word 2 60 bytes
    → IsFirst bytes k
    → malloc (word 8 (section_at bytes k + 32) bytes) ≡ true
    → word 8 (section_at bytes k + 32) bytes < 8
    → word 8 (section_at bytes k + 24) bytes + word 8 (section_at bytes k + 32) bytes ≤ length bytes
    → parse_bpf_elf malloc (some bytes) ≡ undefined
parse_bpf_elf_short malloc bytes k v inside first m few there =
    let (q, found) = parse_bpf_elf-load malloc bytes k v inside first in
    found
    ∙ load-undefined malloc bytes (word 8 (section_at bytes k + 24) bytes)
        (word 8 (section_at bytes k + 32) bytes) q m few there v.small
