-- ===== src/BpfLoader/Elf.antt =====
-- `parse_bpf_elf` of src/bpf_loader.c: the search of an object file for the program's
-- instructions. A file is its bytes with a position.
pub mod Reads
pub mod Sections
pub mod Finds
mod Checks
use stb_e_bpf.Base.{
  ℕ, zero, suc, ◌+◌, ◌*◌, ◌%◌, Bool, true, false, not, ◌&&◌, ◌||◌, Option, none, some, List, [],
  ◌∷◌, ltb, leb, ◌==◌, if◌then◌else◌, length, take, drop, get_or, add64, codes, u32_mod,
}
use stb_e_bpf.Probe.Dns.{c_string}

pub record File : Type 0 where
  pub bytes : List ℕ
  pub pos : ℕ

-- `fseek` from the start. Its offset is a `long`, which has 32 bits on the target: of a larger number
-- the low half is taken, and a negative one is refused.
unfoldable pub fseek_set : ℕ → File → File
fseek_set offset f =
    let o = offset % u32_mod in if ltb o 0x8000_0000 then record f { pos = o } else f

unfoldable pub fseek_cur : ℕ → File → File
fseek_cur n f = record f { pos = f.pos + n }

-- `fread`.
abbrev pub got : ℕ → File → List ℕ
got n f = take n (drop f.pos f.bytes)

unfoldable pub fread : ℕ → File → File
fread n f = record f { pos = f.pos + length (got n f) }

-- The number that bytes make on a little-endian machine.
abbrev pub little : List ℕ → ℕ
little [] = 0
little (b ∷ s) = b + 0x100 * little s

-- A variable of `n` bytes after `fread` into it; `none` is one that has not been filled.
unfoldable pub field : ℕ → File → Option ℕ
field n f = if length (got n f) == n then some (little (got n f)) else none

-- How the search ends: with the bytes of the instructions, with -1, or with the use of a variable
-- that has not been filled, an overflow, or a read behind the allocated block.
pub data Search : Type 0 where
  loaded : (insns : List ℕ) → Search
  refused : Search
  undefined : Search

-- `strstr(s, t) != NULL`.
unfoldable pub has_prefix : List ℕ → List ℕ → Bool
has_prefix [] s = true
has_prefix (c ∷ t) [] = false
has_prefix (c ∷ t) (d ∷ s) = c == d && has_prefix t s

unfoldable pub has_text : List ℕ → List ℕ → Bool
has_text t [] = has_prefix t []
has_text t (d ∷ s) = has_prefix t (d ∷ s) || has_text t s

unfoldable pub is_program : List ℕ → Bool
is_program name = has_text (codes "text") name || has_text (codes "socket") name

-- A product of two variables of sixteen bits, as an `int`.
unfoldable pub int_product : ℕ → ℕ → Option ℕ
int_product a b = if ltb (a * b) 0x8000_0000 then some (a * b) else none

-- The fields of the ELF header that are used.
pub record Header : Type 0 where
  pub e_shoff : ℕ
  pub e_shentsize : ℕ
  pub e_shnum : ℕ
  pub e_shstrndx : Option ℕ

-- The fields of a section header.
pub record Section : Type 0 where
  pub sh_name : Option ℕ
  pub sh_type : Option ℕ
  pub sh_offset : Option ℕ
  pub sh_size : Option ℕ

-- What is read at the header of a section, and the file afterwards.
unfoldable pub read_section : ℕ → File → Section × File
read_section offset f =
    let f0 = fseek_set offset f in
    let f1 = fread 4 f0 in
    let f2 = fseek_cur 16 (fread 4 f1) in
    let f3 = fread 8 f2 in
    (
      record {
        sh_name = field 4 f0;
        sh_type = field 4 f1;
        sh_offset = field 8 f2;
        sh_size = field 8 f3;
      },
      fread 8 f3,
    )

-- A value that has to be there.
abbrev pub filled : {A : Type 0} → Option A → (A → Search) → Search
filled none f = undefined
filled (some a) f = f a

-- The block for the instructions, and the eight bytes that are printed.
unfoldable pub load : (ℕ → Bool) → ℕ → ℕ → File → Search
load malloc offset size f =
    let f1 = fseek_set offset f in
    if not (malloc size)
    then refused
    else if not (length (got size f1) == size)
    then refused
    else if ltb size 8
    then undefined
    else loaded (got size f1)

-- The section's name, of which the array takes 31 bytes.
abbrev pub section_name : ℕ → File → List ℕ
section_name offset f = c_string (got 31 (fseek_set offset f))

-- The test of a section's name; `next` is the way on.
unfoldable pub by_name : (ℕ → Bool) → Section → List ℕ → File → (File → Search) → Search
by_name malloc s name f next = elim (is_program name) [
  | true ↦ filled s.sh_offset λ offset. filled s.sh_size λ size. load malloc offset size f
  | false ↦ next f
]

-- A section with bytes of its own: its name is read.
unfoldable pub try_section : (ℕ → Bool) → Header → Section → File → (File → Search) → Search
try_section malloc h s f next = filled h.e_shstrndx λ shstrndx.
    filled (int_product shstrndx h.e_shentsize) λ strings.
      let f1 = fseek_set (add64 (add64 h.e_shoff strings) 24) f in
      filled (field 8 f1) λ str_off. filled s.sh_name λ name.
        let f2 = fread 8 f1 in
        by_name malloc s (section_name (add64 str_off name) f2)
          (fread 31 (fseek_set (add64 str_off name) f2)) next

-- The body of the loop behind the reading of the section's header.
unfoldable pub visit : (ℕ → Bool) → Header → Section → File → (File → Search) → Search
visit malloc h s f next = filled s.sh_type λ type. elim (type == 1) [
  | false ↦ next f
  | true ↦
      filled s.sh_size
        λ size. elim (size == 0) [ true ↦ next f | false ↦ try_section malloc h s f next ]
]

-- `for (int i = 0; i < e_shnum; i++)`, with the number of sections that are left.
unfoldable pub search : (ℕ → Bool) → Header → ℕ → ℕ → File → Search
search malloc h zero i f = refused
search malloc h (suc left) i f = filled (int_product i h.e_shentsize) λ at.
    let (s, f1) = read_section (add64 h.e_shoff at) f in
    visit malloc h s f1 (λ f2. search malloc h left (i + 1) f2)

-- The magic number, the class and the byte order.
unfoldable pub is_elf64 : List ℕ → Bool
is_elf64 e_ident =
    get_or e_ident 0 0 == 0x7F
    && get_or e_ident 1 0 == b'E'
    && get_or e_ident 2 0 == b'L'
    && get_or e_ident 3 0 == b'F'
    && get_or e_ident 4 0 == 2
    && get_or e_ident 5 0 == 1

-- The fields behind `e_ident`.
unfoldable pub with_header : (ℕ → Bool) → File → Search
with_header malloc f =
    let f1 = fseek_cur 20 (fread 2 (fread 2 (fseek_set 16 f))) in
    let f2 = fseek_cur 10 (fread 8 f1) in
    let f3 = fread 2 f2 in
    let f4 = fread 2 f3 in
    filled (field 2 f3) λ shnum. filled (field 8 f1) λ shoff. filled (field 2 f2) λ shentsize.
      search malloc
        (record {
          e_shoff = shoff;
          e_shentsize = shentsize;
          e_shnum = shnum;
          e_shstrndx = field 2 f4;
        })
        shnum 0 (fread 2 f4)

-- `parse_bpf_elf`; no file is one that cannot be opened. The number of instructions is an eighth
-- of the length of the bytes.
unfoldable pub parse_bpf_elf : (ℕ → Bool) → Option (List ℕ) → Search
parse_bpf_elf malloc none = refused
parse_bpf_elf malloc (some bytes) =
    let f : File = record { bytes = bytes; pos = 0 } in
    if not (length (got 16 f) == 16)
    then refused
    else if not (is_elf64 (got 16 f))
    then refused
    else with_header malloc (fread 16 f)
