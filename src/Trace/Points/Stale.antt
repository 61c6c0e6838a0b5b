-- ===== src/Trace/Points/Stale.antt =====
-- What of the ring's old memory the programs let through.
use stb_e_bpf.Base.{
  ℕ, suc, ◌+◌, ◌-◌, ◌<◌, ◌≡◌, refl, ap, min, Option, none, some, List, [], ◌∷◌, ◌++◌, arith, length,
  length-append, length-take, length-drop, take, drop, drop-append, get_elem?, get_elem?-append,
  length-replicate,
}
use stb_e_bpf.Trace.{Event, Task, data_len, no_data, emit, pid_of}
use stb_e_bpf.Trace.Points.{read_str, security_file_open, do_filp_open}

-- How many bytes of a name the array takes.
unfoldable pub taken : Option (List ℕ) → List ℕ → ℕ
taken none _ = 0
taken (some name) old = min (length name) (length old - 1)

-- For any name, also one that cannot be read or is longer than the array: the array keeps its
-- size, so that nothing is written outside, and the byte behind what is taken of the name is zero.
pub read_str-fits :
    (s : Option (List ℕ)) (old : List ℕ)
    → 0 < length old
    → (length (read_str s old) ≡ length old) × (get_elem? (read_str s old) (taken s old) ≡ some 0)
unfolding read_str taken
read_str-fits none [] h = absurd (omega arith)
read_str-fits none (x ∷ old) h = (ap suc (length-replicate (length old) 0), refl)
read_str-fits (some name) old h =
    let n = min (length name) (length old - 1) in
    let size : length (take n name) ≡ n = omega (arith, length-take n name) in
    (
      omega (
        arith,
        size,
        length-append (take n name) (0 ∷ drop (n + 1) old),
        length-drop (n + 1) old,
      ),
      get_elem?-append (take n name) (0 ∷ drop (n + 1) old) n 0 (omega (arith, size)),
    )

-- Behind a name that fits, the array holds what it held.
read_str-behind :
    (name : List ℕ) (old : List ℕ)
    → length name < length old
    → drop (length name + 1) (read_str (some name) old) ≡ drop (length name + 1) old
unfolding read_str
read_str-behind name old h =
    let n : min (length name) (length old - 1) ≡ length name = omega arith in
    rw n (
      drop-append (take (length name) name) (0 ∷ drop (length name + 1) old) (length name + 1) 1
        (omega (arith, length-take (length name) name)))

-- The name of an opened file, reported by the two programs that watch it, with the same old memory:
-- behind the name and its terminator, the one that clears the array has zeroes, and the other what
-- the ring's memory held before.
pub security_file_open-stale :
    (t : Task) (now : ℕ) (name : List ℕ) (old : Event) (rest : List (Option Event))
    (events : List Event)
    → length name < data_len
    → length old.data_bytes ≡ data_len
    → (a b : Event) × ((security_file_open t now
          (some name)
          (record { reserved = some old ∷ rest; events = events })).events
        ≡ events ++ (a ∷ []))
      × ((do_filp_open t now
            (some name)
            (record { reserved = some old ∷ rest; events = events })).events
          ≡ events ++ (b ∷ []))
      × (drop (length name + 1) a.data_bytes ≡ drop (length name + 1) old.data_bytes)
      × (drop (length name + 1) b.data_bytes ≡ drop (length name + 1) no_data)
unfolding security_file_open do_filp_open emit
security_file_open-stale t now name old rest events short size = (
  record old {
    timestamp_ns = now;
    type = 19;
    pid = pid_of t;
    comm = t.comm;
    bytes = 0;
    packets = 0;
    data_bytes = read_str (some name) old.data_bytes;
  },
  record old {
    timestamp_ns = now;
    type = 6;
    pid = pid_of t;
    ppid = 0;
    comm = t.comm;
    data_bytes = read_str (some name) no_data;
  },
  refl,
  refl,
  read_str-behind name old.data_bytes (omega (arith, short, size)),
  read_str-behind name no_data (omega (arith, short, length-replicate {A = ℕ} data_len 0)),
)
