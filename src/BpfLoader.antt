-- ===== src/BpfLoader.antt =====
-- src/bpf_loader.c: the descriptors that the loader opens and closes. What the kernel answers to
-- the calls of one start is a record; `open_fds` are the descriptors that are open, and `maps` the
-- ring buffers that are mapped, each named by its descriptor. A descriptor of -1 is `none`. Error
-- texts and log output are left out. The ELF file that may replace the embedded program is in Elf: it
-- opens and closes its own file, and only its program's load is seen here.
pub mod Descriptors
pub mod Leaks
pub mod Perf
pub mod Elf
mod Checks
use stb_e_bpf.Base.{
  ℕ, zero, suc, ◌+◌, ◌-◌, ◌*◌, ◌/◌, ◌%◌, ◌^◌, ◌≤◌, ◌<◌, min, max, bit_and, bit_or, bit_xor, ◌≡◌,
  refl, sym, ap, ◌∙◌, ◌≢◌, ◌↔◌, ◌⊎◌, inl, inr, Bool, true, false, not, ◌&&◌, ◌||◌, Option, none,
  some, List, [], ◌∷◌, ◌++◌, map, arith, ltb, leb, ◌==◌, if◌then◌else◌, ==_iff, ltb→lt, Bool-cases,
  Option-cases, ◌>>=◌, length, get_elem?, get_or, set, modify, take, drop, replicate, length-append,
  length-set, length-modify, length-take, length-drop, get_elem?-append, slice-append, slice-behind,
  get_elem?-append_left, length-replicate, slice, slice-some, All, add64, sub64, add32, has_bits,
  be16, be32, le16, le32, u8_mod, u16_mod, u32_mod, u64_mod, codes, strncpy, length-strncpy,
  decimal,
}

-- The limits PERF_MAX_CPUS and PERF_PAGE_CNT.
abbrev pub perf_max_cpus : ℕ
perf_max_cpus = 16

abbrev pub perf_page_cnt : ℕ
perf_page_cnt = 64

-- A slot of `perf_fds` and `perf_mmap`; `none` is -1 and NULL.
pub record Slot : Type 0 where
  pub perf_fd : Option ℕ
  pub perf_mmap : Option ℕ

-- `struct bpf_loader_status`.
pub record Status : Type 0 where
  pub socket_fd : Option ℕ
  pub perf_map_fd : Option ℕ
  pub bpf_prog_fd : Option ℕ
  pub use_bpf : Bool
  pub nr_cpus : ℕ
  pub slots : List Slot
  pub page_cnt : ℕ

-- What `memset(status, 0, …)` leaves in a slot: descriptor 0, and no ring buffer.
abbrev pub zero_slot : Slot
zero_slot = record { perf_fd = some 0; perf_mmap = none }

pub record World : Type 0 where
  pub open_fds : List ℕ
  pub maps : List ℕ

-- The answers to the calls of `bpf_loader_init`: the descriptors of the program and of the socket,
-- and whether the other three calls succeed.
pub record InitReply : Type 0 where
  pub prog : Option ℕ
  pub socket : Option ℕ
  pub ifindex : Bool
  pub bind : Bool
  pub attach : Bool

-- `close(fd)` and `munmap`.
unfoldable pub release : ℕ → List ℕ → List ℕ
release fd [] = []
release fd (g ∷ gs) = if g == fd then gs else g ∷ release fd gs

unfoldable pub close_fd : ℕ → World → World
unfolding release
close_fd fd w = record w { open_fds = release fd w.open_fds }

unfoldable pub unmap : ℕ → World → World
unfolding release
unmap fd w = record w { maps = release fd w.maps }

abbrev pub opened : ℕ → World → World
opened fd w = record w { open_fds = fd ∷ w.open_fds }

-- The status before anything is opened.
abbrev pub blank : Status
blank = record {
  socket_fd = none;
  perf_map_fd = none;
  bpf_prog_fd = none;
  use_bpf = false;
  nr_cpus = 0;
  slots = replicate perf_max_cpus zero_slot;
  page_cnt = 0;
}

-- The answers to the calls that `bpf_loader_create_perf_buffer` makes for one CPU.
pub record CpuReply : Type 0 where
  pub perf_event : Option ℕ
  pub update : Bool
  pub mmap : Bool

-- One round of the loop over the CPUs.
unfoldable pub set_up_cpu : ℕ → CpuReply → Status × World → Status × World
set_up_cpu cpu reply (status, w) =
    let skip : Status = record status {
      slots = modify status.slots cpu (λ s. record s { perf_fd = none });
    } in
    elim reply.perf_event [
      | none ↦ (skip, w)
      | some fd ↦
          if not reply.update || not reply.mmap then (skip, close_fd fd (opened fd w)) else (
            record status {
              slots = set status.slots cpu (record { perf_fd = some fd; perf_mmap = some fd });
              nr_cpus = status.nr_cpus + 1;
            },
            record w { open_fds = fd ∷ w.open_fds; maps = fd ∷ w.maps },
          )
    ]

unfoldable pub set_up_cpus : ℕ → List CpuReply → Status × World → Status × World
set_up_cpus cpu [] l = l
set_up_cpus cpu (reply ∷ rest) l = set_up_cpus (cpu + 1) rest (set_up_cpu cpu reply l)

-- `bpf_loader_create_perf_buffer`: whether it returns 0. There is an answer for each CPU that is
-- online; at least one is used and no more than sixteen.
unfoldable pub bpf_loader_create_perf_buffer :
    List CpuReply → Status × World → Bool × (Status × World)
bpf_loader_create_perf_buffer replies (status, w) =
    let start : Status = record status { page_cnt = perf_page_cnt; nr_cpus = 0 } in
    elim start.perf_map_fd [
      | none ↦ (false, (start, w))
      | some map_fd ↦
          let (status', w') = set_up_cpus 0 (take perf_max_cpus replies) (start, w) in
          (not (status'.nr_cpus == 0), (status', w'))
    ]

-- `bpf_loader_init`: whether it returns 0, and the status. The way out with a failure after the
-- socket is open closes both descriptors; `status` keeps the number of the closed program.
unfoldable pub bpf_loader_init : InitReply → List CpuReply → World → Bool × (Status × World)
bpf_loader_init reply cpus w = elim reply.prog [
  | none ↦ (false, (blank, w))
  | some prog_fd ↦
      let loaded : Status = record blank { bpf_prog_fd = some prog_fd; perf_map_fd = none } in
      let w1 = opened prog_fd w in
      elim reply.socket [
        | none ↦ (false, (loaded, close_fd prog_fd w1))
        | some sock_fd ↦
            let w2 = opened sock_fd w1 in
            if not reply.ifindex || not reply.bind || not reply.attach
            then (false, (loaded, close_fd prog_fd (close_fd sock_fd w2)))
            else let ready : Status = record loaded { socket_fd = some sock_fd; use_bpf = true } in
              elim ready.perf_map_fd [
                | none ↦ (true, (ready, w2))
                | some map_fd ↦ (true, (bpf_loader_create_perf_buffer cpus (ready, w2)).1)
              ]
      ]
]

-- One round of the loop of `bpf_loader_cleanup`.
unfoldable pub clean_slot : Slot → World → Slot × World
clean_slot s w =
    let w1 : World = elim s.perf_mmap [ none ↦ w | some m ↦ unmap m w ] in
    let w2 : World = elim s.perf_fd [ none ↦ w1 | some fd ↦ close_fd fd w1 ] in
    (record { perf_fd = none; perf_mmap = none }, w2)

-- Its loop, over the first `nr_cpus` slots.
unfoldable pub clean_slots : ℕ → List Slot → World → List Slot × World
clean_slots zero slots w = (slots, w)
clean_slots (suc n) [] w = ([], w)
clean_slots (suc n) (s ∷ slots) w =
    let (s', w1) = clean_slot s w in let (rest, w2) = clean_slots n slots w1 in (s' ∷ rest, w2)

unfoldable pub close_opt : Option ℕ → World → World
close_opt none w = w
close_opt (some fd) w = close_fd fd w

-- `bpf_loader_cleanup`.
unfoldable pub bpf_loader_cleanup : Status × World → Status × World
bpf_loader_cleanup (status, w) =
    let (slots, w1) = clean_slots status.nr_cpus status.slots w in
    (
      record status { slots = slots; socket_fd = none; bpf_prog_fd = none; use_bpf = false },
      close_opt status.bpf_prog_fd (close_opt status.socket_fd w1),
    )
