-- ===== src/BpfLoader/Perf.antt =====
-- `bpf_loader_read_perf_events` of src/bpf_loader.c and `read_bpf_events` of src/main.c: the events
-- that the kernel's program puts into the ring buffers. A ring buffer is the bytes behind its
-- control page, with the positions that the page holds; no byte is mapped behind its end.
pub mod Filled
pub mod Drain
pub mod Bounds
mod Checks
use stb_e_bpf.Base.{
  true, false, ℕ, zero, suc, ◌+◌, ◌-◌, ◌*◌, ◌%◌, ◌≤◌, ◌<◌, ◌≡◌, Bool, ◌&&◌, Option, none, some,
  List, [], ◌∷◌, ◌++◌, ltb, leb, ◌==◌, if◌then◌else◌, ◌>>=◌, length, get_or, slice, take, drop,
  le16, le32, add64,
}
use stb_e_bpf.BpfLoader.{Slot}

-- `struct perf_event_mmap_page` with the memory behind it.
pub record Ring : Type 0 where
  pub bytes : List ℕ
  pub data_head : ℕ
  pub data_tail : ℕ

-- `PERF_RECORD_SAMPLE`, and the sizes of `struct perf_event_header` with the size that a sample
-- has behind it, and of `struct pkt_event_t`.
abbrev pub perf_record_sample : ℕ
perf_record_sample = 9

abbrev pub sample_offset : ℕ
sample_offset = 12

abbrev pub event_size : ℕ
event_size = 40

-- The output buffer with what has been written, and the count of events.
pub record Batch : Type 0 where
  pub out : List ℕ
  pub nr_events : ℕ

-- How a loop ends: at the head, with a read outside the mapping, or not within its fuel.
pub data Reading (A : Type 0) : Type 0 where
  done : A → Reading A
  outside : Reading A
  running : Reading A

-- The copy of one sample, if there is room.
unfoldable pub copy_sample : ℕ → List ℕ → ℕ → Batch → Option Batch
copy_sample bufsize bytes offset b =
    if leb (length b.out + event_size) bufsize
    then (slice bytes offset event_size >>= λ event.
        some (record { out = b.out ++ event; nr_events = b.nr_events + 1 }))
    else some b

-- What a record adds to the batch.
unfoldable pub take_record : ℕ → List ℕ → ℕ → List ℕ → Batch → Option Batch
take_record bufsize bytes offset header b =
    if le32 header 0 == perf_record_sample
    then copy_sample bufsize bytes (offset + sample_offset) b
    else some b

-- `while (*tail < head)`.
unfoldable pub read_ring : ℕ → ℕ → Ring → Batch → Reading (Ring × Batch)
read_ring zero bufsize r b = running
read_ring (suc fuel) bufsize r b = elim (ltb r.data_tail r.data_head) [
  | false ↦ done (r, b)
  | true ↦
      let offset = r.data_tail % length r.bytes in
      elim (slice r.bytes offset 8) [
        | none ↦ outside
        | some header ↦ elim (take_record bufsize r.bytes offset header b) [
          | none ↦ outside
          | some b' ↦
              read_ring fuel bufsize (record r { data_tail = add64 r.data_tail (le16 header 6) }) b'
        ]
      ]
]

-- The slot of a CPU, its ring buffer and whether there is anything to read.
abbrev pub is_read : Slot → Bool
is_read s = elim s.perf_fd [
  | none ↦ false
  | some fd ↦ elim s.perf_mmap [ none ↦ false | some m ↦ true ]
]

-- The ring buffers that have been read, in their order.
unfoldable pub put_back :
    Slot × Ring → Reading (List (Slot × Ring) × Batch) → Reading (List (Slot × Ring) × Batch)
put_back c (done (cpus, b)) = done (c ∷ cpus, b)
put_back c outside = outside
put_back c running = running

-- The loop over the CPUs below `nr_cpus`, each with the ring buffer that its slot maps.
unfoldable pub read_cpus :
    ℕ → ℕ → ℕ → List (Slot × Ring) → Batch → Reading (List (Slot × Ring) × Batch)
read_cpus zero fuel bufsize cpus b = done (cpus, b)
read_cpus (suc n) fuel bufsize [] b = done ([], b)
read_cpus (suc n) fuel bufsize ((s, r) ∷ cpus) b = elim (is_read s) [
  | false ↦ put_back (s, r) (read_cpus n fuel bufsize cpus b)
  | true ↦ elim (read_ring fuel bufsize r b) [
    | outside ↦ outside
    | running ↦ running
    | done (r', b1) ↦ put_back (s, r') (read_cpus n fuel bufsize cpus b1)
  ]
]

abbrev pub no_events : Batch
no_events = record { out = []; nr_events = 0 }

-- `bpf_loader_read_perf_events`; its result is the length of `out`.
unfoldable pub bpf_loader_read_perf_events :
    ℕ → ℕ → ℕ → List (Slot × Ring) → Reading (List (Slot × Ring) × Batch)
bpf_loader_read_perf_events nr_cpus fuel bufsize cpus =
    read_cpus nr_cpus fuel bufsize cpus no_events
