-- ===== src/BpfLoader/Perf/Checks.antt =====
-- The reader on concrete rings.
use stb_e_bpf.Base.{
  ℕ, ◌%◌, ◌+◌, ◌≡◌, refl, some, List, [], ◌∷◌, ◌++◌, arith, length, replicate, slice, le16, le32,
  ◌<◌, ◌*◌, ◌≤◌,
}
use stb_e_bpf.BpfLoader.{Slot, zero_slot}
use stb_e_bpf.BpfLoader.Perf.{
  Ring, done, outside, no_events, read_ring, bpf_loader_read_perf_events, read_cpus, take_record,
  copy_sample, put_back,
}
use stb_e_bpf.BpfLoader.Perf.Filled.{Rec, Laid, samples, span, filled}
use stb_e_bpf.BpfLoader.Perf.Drain.{read_ring-fills, read_ring_cut}
use stb_e_bpf.BpfLoader.Perf.Bounds.{Ends, Read, bpf_loader_read_perf_events-Ends}

abbrev payload : List ℕ
payload = replicate 40 7

abbrev sample_header : List ℕ
sample_header = 9 ∷ 0 ∷ 0 ∷ 0 ∷ 0 ∷ 0 ∷ 56 ∷ 0 ∷ []

-- One sample of 56 bytes at the start of a ring of 64.
abbrev ring_bytes : List ℕ
ring_bytes = sample_header ++ (40 ∷ 0 ∷ 0 ∷ 0 ∷ (payload ++ replicate 12 0))

abbrev one_sample : Rec
one_sample = record { header = sample_header; size = 56; event = some payload }

one_sample-Laid : Laid ring_bytes 0 (one_sample ∷ [])
unfolding slice le16 le32
one_sample-Laid = (refl, refl, (refl, refl, refl), tt)

one_sample-span : 0 + span (one_sample ∷ []) ≡ 56
unfolding span
one_sample-span = refl

read_ring-fills_example :
    read_ring 2 100 (record { bytes = ring_bytes; data_head = 56; data_tail = 0 }) no_events
    ≡ done (
      record { bytes = ring_bytes; data_head = 56; data_tail = 56 },
      filled 100 no_events (samples (one_sample ∷ [])),
    )
read_ring-fills_example =
    read_ring-fills 2 100 56 0 ring_bytes (one_sample ∷ []) no_events (omega arith) one_sample-Laid
      (omega arith, tt) one_sample-span (omega arith) (omega arith, omega arith)

-- A ring of zeroes with eight bytes to read.
abbrev zero_ring : Ring
zero_ring = record { bytes = replicate 64 0; data_head = 8; data_tail = 0 }

zero_header : slice zero_ring.bytes 0 8 ≡ some (replicate 8 0)
unfolding slice
zero_header = refl

zero_event : slice zero_ring.bytes 12 40 ≡ some (replicate 40 0)
unfolding slice
zero_event = refl

zero_size : le16 (replicate 8 0) 6 ≡ 0
unfolding le16
zero_size = refl

-- The same sample, and behind it one whose event would begin behind the ring's end.
abbrev cut_bytes : List ℕ
cut_bytes = sample_header ++ (40 ∷ 0 ∷ 0 ∷ 0 ∷ (payload ++ (replicate 4 0 ++ sample_header)))

cut_Laid : Laid cut_bytes 0 (one_sample ∷ [])
unfolding slice le16 le32
cut_Laid = (refl, refl, (refl, refl, refl), tt)

cut_header :
    slice cut_bytes ((0 + span (one_sample ∷ [])) % length cut_bytes) 8 ≡ some sample_header
unfolding slice span
cut_header = refl

cut_type : le32 sample_header 0 ≡ 9
unfolding le32
cut_type = refl

before_head : 0 + span (one_sample ∷ []) < 112
unfolding span
before_head = omega arith

past_end : length cut_bytes < (0 + span (one_sample ∷ [])) % length cut_bytes + 52
unfolding span
past_end = omega arith

two_fit : 0 + 40 * (length (samples (one_sample ∷ [])) + 1) ≤ 100
unfolding samples
two_fit = omega arith

read_ring_cut_example :
    read_ring 2 100 (record { bytes = cut_bytes; data_head = 112; data_tail = 0 }) no_events
    ≡ outside
read_ring_cut_example =
    read_ring_cut 2 100 112 0 cut_bytes (one_sample ∷ []) sample_header no_events (omega arith)
      cut_Laid (omega arith, tt) before_head (omega arith) (omega arith, omega arith) cut_header
      cut_type past_end two_fit

-- A ring with one sample, which is read.
abbrev full_ring : Ring
full_ring = record { bytes = ring_bytes; data_head = 56; data_tail = 0 }

abbrev used_slot : Slot
used_slot = record { perf_fd = some 4; perf_mmap = some 4 }

full_ring_test :
    bpf_loader_read_perf_events 2 9 100 ((used_slot, full_ring) ∷ (zero_slot, zero_ring) ∷ [])
    ≡ done (
      (used_slot, record full_ring { data_tail = 56 }) ∷ (zero_slot, zero_ring) ∷ [],
      record { out = payload; nr_events = 1 },
    )
unfolding bpf_loader_read_perf_events read_cpus read_ring take_record copy_sample put_back slice
    le16 le32
full_ring_test = refl

bpf_loader_read_perf_events-Ends_example :
    Ends
      (Read 2 100)
      (bpf_loader_read_perf_events 2 9 100 ((used_slot, full_ring) ∷ (zero_slot, zero_ring) ∷ []))
bpf_loader_read_perf_events-Ends_example =
    bpf_loader_read_perf_events-Ends 2 9 100 ((used_slot, full_ring) ∷ (zero_slot, zero_ring) ∷ [])
