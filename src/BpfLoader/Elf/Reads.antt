-- ===== src/BpfLoader/Elf/Reads.antt =====
-- What src/bpf_loader.c reads at a position of an object file.
use stb_e_bpf.Base.{
  ℕ, ◌+◌, ◌*◌, ◌≤◌, ◌<◌, ◌≡◌, refl, ap, some, List, arith, length, length-take, length-drop, take,
  drop,
}
use stb_e_bpf.Probe.Dns.{c_string}
use stb_e_bpf.BpfLoader.Elf.{
  File, fseek_set, fseek_cur, fread, little, field, Header, Section, read_section,
}

-- The number in `n` bytes of the file.
abbrev pub word : ℕ → ℕ → List ℕ → ℕ
word n offset bytes = little (take n (drop offset bytes))

abbrev pub at_pos : List ℕ → ℕ → File
at_pos bytes p = record { bytes = bytes; pos = p }

pub length-got :
    (bytes : List ℕ) (p n : ℕ) → p + n ≤ length bytes → length (take n (drop p bytes)) ≡ n
length-got bytes p n h = omega (arith, length-take n (drop p bytes), length-drop p bytes)

-- A variable is filled from inside the file, and the position moves on.
pub field-word :
    (bytes : List ℕ) (p n : ℕ)
    → p + n ≤ length bytes
    → field n (at_pos bytes p) ≡ some (word n p bytes)
unfolding field
field-word bytes p n h = ground (arith, length-got bytes p n h)

pub fread-cur :
    (bytes : List ℕ) (p n : ℕ)
    → p + n ≤ length bytes
    → fread n (at_pos bytes p) ≡ at_pos bytes (p + n)
unfolding fread
fread-cur bytes p n h = ap (λ k. at_pos bytes (p + k)) (length-got bytes p n h)

pub fseek_set-at :
    (bytes : List ℕ) (p offset : ℕ)
    → offset < 0x8000_0000
    → fseek_set offset (at_pos bytes p) ≡ at_pos bytes offset
unfolding fseek_set
fseek_set-at bytes p offset h = ground arith

-- The tables of an ELF file for a 64-bit little-endian machine, by the positions of the fields.
abbrev pub header_of : List ℕ → Header
header_of bytes = record {
  e_shoff = word 8 40 bytes;
  e_shentsize = word 2 58 bytes;
  e_shnum = word 2 60 bytes;
  e_shstrndx = some (word 2 62 bytes);
}

-- Where the header of section `i` is, and where the names are.
abbrev pub section_at : List ℕ → ℕ → ℕ
section_at bytes i = word 8 40 bytes + i * word 2 58 bytes

abbrev pub names_at : List ℕ → ℕ
names_at bytes = word 8 (section_at bytes (word 2 62 bytes) + 24) bytes

abbrev pub section_of : List ℕ → ℕ → Section
section_of bytes o = record {
  sh_name = some (word 4 o bytes);
  sh_type = some (word 4 (o + 4) bytes);
  sh_offset = some (word 8 (o + 24) bytes);
  sh_size = some (word 8 (o + 32) bytes);
}

abbrev pub name_at : List ℕ → ℕ → List ℕ
name_at bytes o = c_string (take 31 (drop (names_at bytes + word 4 o bytes) bytes))

pub read_section-at :
    (bytes : List ℕ) (p o : ℕ)
    → o + 40 ≤ length bytes
    → length bytes < 0x8000_0000
    → read_section o (at_pos bytes p) ≡ (section_of bytes o, at_pos bytes (o + 40))
unfolding read_section fseek_cur
read_section-at bytes p o inside small =
    let seek : o + 4 + 4 + 16 ≡ o + 24 = omega arith in
    let size : o + 24 + 8 ≡ o + 32 = omega arith in
    let behind : o + 32 + 8 ≡ o + 40 = omega arith in
    rw (fseek_set-at bytes p o (omega arith)) (
      rw (fread-cur bytes o 4 (omega arith), field-word bytes o 4 (omega arith))
        (rw
          (fread-cur bytes (o + 4) 4 (omega arith), field-word bytes (o + 4) 4 (omega arith), seek)
          (rw
            (
              fread-cur bytes (o + 24) 8 (omega arith),
              field-word bytes (o + 24) 8 (omega arith),
              size,
            )
            (rw
              (
                fread-cur bytes (o + 32) 8 (omega arith),
                field-word bytes (o + 32) 8 (omega arith),
                behind,
              )
              refl))))
