-- ===== src/Connect/Latency.antt =====
-- Latencies over interleaved calls of several threads, and the map of start times.
use stb_e_bpf.Base.{
  ℕ, ◌+◌, ◌-◌, ◌/◌, ◌≤◌, ◌<◌, ◌≡◌, refl, ap, ◌∙◌, ◌≢◌, ◌⊎◌, true, false, none, some, List, [], ◌∷◌,
  ◌++◌, arith, ltb, ◌==◌, if◌then◌else◌, length, All, sub64, u64_mod, ◌%◌,
}
use stb_e_bpf.Connect.{
  af_inet, max_entries, Kernel, lookup, delete, replace, update, Target, read_sockaddr_in,
  sys_enter_connect, exit_event, sys_exit_connect, ConnectEvent, connect_exit,
}

-- The calls of the handlers.
pub data Op : Type 0 where
  enter : ℕ → ℕ → List ℕ → ℕ → Op
  exit : ℕ → ℕ → ℕ → Op

abbrev pub thread : Op → ℕ
thread (enter pid_tgid ts user addr_len) = pid_tgid
thread (exit pid_tgid ts ret) = pid_tgid

unfoldable pub step : Kernel → Op → Kernel
step k (enter pid_tgid ts user addr_len) = sys_enter_connect k pid_tgid ts user addr_len
step k (exit pid_tgid ts ret) = sys_exit_connect k pid_tgid ts ret

unfoldable pub run : Kernel → List Op → Kernel
run k [] = k
run k (op ∷ ops) = run (step k op) ops

-- How many entries a key has.
unfoldable pub entries : ℕ → List (ℕ × ℕ) → ℕ
entries key [] = 0
entries key ((k, v) ∷ m) = (if k == key then 1 else 0) + entries key m

pub record IsValid (k : Kernel) : Type 0 where
  pub bounded : length k.connect_start ≤ max_entries
  pub distinct : (key : ℕ) → entries key k.connect_start ≤ 1

replace-shape :
    (key value : ℕ) (m : List (ℕ × ℕ)) (q : ℕ)
    → (length (replace key value m) ≡ length m) × (entries q (replace key value m) ≡ entries q m)
unfolding replace entries
replace-shape key value [] q = (refl, refl)
replace-shape key value ((k, v) ∷ m) q = ground (arith, replace-shape key value m q)

lookup-entries : (key : ℕ) (m : List (ℕ × ℕ)) → lookup key m ≡ none → entries key m ≡ 0
unfolding lookup entries
lookup-entries key [] h = refl
lookup-entries key ((k, v) ∷ m) h = ground (arith, lookup-entries key m)

entries-lookup : (key : ℕ) (m : List (ℕ × ℕ)) → entries key m ≡ 0 → lookup key m ≡ none
unfolding lookup entries
entries-lookup key [] h = refl
entries-lookup key ((k, v) ∷ m) h = ground (arith, entries-lookup key m)

delete-shape :
    (key : ℕ) (m : List (ℕ × ℕ)) (q : ℕ)
    → (length (delete key m) ≤ length m)
      × (entries q (delete key m) ≡ entries q m - (if key == q then 1 else 0))
unfolding delete entries
delete-shape key [] q = ground arith
delete-shape key ((k, v) ∷ m) q = ground (arith, delete-shape key m q)

pub lookup-replace :
    (key value q : ℕ) (m : List (ℕ × ℕ))
    → lookup q (replace key value m) ≡ (
        if key == q
        then elim (lookup key m) [ none ↦ none | some old ↦ some value ]
        else lookup q m)
unfolding lookup replace
lookup-replace key value q [] = ground arith
lookup-replace key value q ((k, v) ∷ m) = ground (arith, lookup-replace key value q m)

pub lookup-delete : (key q : ℕ) (m : List (ℕ × ℕ)) → key ≢ q → lookup q (delete key m) ≡ lookup q m
unfolding lookup delete
lookup-delete key q [] h = refl
lookup-delete key q ((k, v) ∷ m) h = ground (arith, lookup-delete key q m h)

lookup-update :
    (key value q : ℕ) (m : List (ℕ × ℕ)) → key ≢ q → lookup q (update key value m) ≡ lookup q m
unfolding update lookup
lookup-update key value q m h = ground (arith, lookup-replace key value q m)

-- The map has a place for the key.
abbrev pub HasRoom : ℕ → List (ℕ × ℕ) → Type 0
HasRoom key m = (lookup key m ≢ none) ⊎ (length m < max_entries)

lookup-update_self :
    (key value : ℕ) (m : List (ℕ × ℕ))
    → HasRoom key m
    → lookup key (update key value m) ≡ some value
unfolding update lookup
lookup-update_self key value m room = ground (arith, lookup-replace key value key m)

-- A call of another thread leaves a thread's start time.
step-other :
    (k : Kernel) (op : Op) (key : ℕ)
    → thread op ≢ key
    → lookup key (step k op).connect_start ≡ lookup key k.connect_start
unfolding step sys_enter_connect sys_exit_connect
step-other k (enter p ts user addr_len) key h =
    ground (arith, lookup-update p ts key k.connect_start h)
step-other k (exit p ts ret) key h = ground (arith, lookup-delete p key k.connect_start h)

run-other :
    (k : Kernel) (ops : List Op) (key : ℕ)
    → All (λ op. thread op ≢ key) ops
    → lookup key (run k ops).connect_start ≡ lookup key k.connect_start
unfolding run
run-other k [] key h = refl
run-other k (op ∷ ops) key h = run-other (step k op) ops key h.1 ∙ step-other k op key h.0

run-append : (k : Kernel) (ops : List Op) (op : Op) → run k (ops ++ (op ∷ [])) ≡ step (run k ops) op
unfolding run
run-append k [] op = refl
run-append k (o ∷ ops) op = run-append (step k o) ops op

step-enter :
    (k : Kernel) (key ts addr_len : ℕ) (user : List ℕ) (target : Target)
    → 2 ≤ addr_len
    → read_sockaddr_in user addr_len ≡ some target
    → target.family ≡ af_inet
    → (step k (enter key ts user addr_len)).connect_start ≡ update key ts k.connect_start
unfolding step sys_enter_connect
step-enter k key ts addr_len user target long readable v4 =
    let enough : ltb addr_len 2 ≡ false = ground arith in
    let ipv4 : (target.family == af_inet) ≡ true = ground arith in
    rw (enough, readable) (rw ipv4 refl)

step-exit :
    (k : Kernel) (key ts ret start_ts : ℕ)
    → lookup key k.connect_start ≡ some start_ts
    → (step k (exit key ts ret)).events
      ≡ k.events ++ (exit_event key ts ret (sub64 ts start_ts / 1000) ∷ [])
unfolding step sys_exit_connect
step-exit k key ts ret start_ts h = rw (h, sys_exit_connect) refl

-- The event of a thread that has left connect(): the process is the upper half of its identifier.
abbrev pub left_event : ℕ → ℕ → ℕ → ℕ → ConnectEvent
left_event key ts ret latency_us = record {
  timestamp_ns = ts;
  pid = key / 0x1_0000_0000;
  daddr = 0;
  dport = 0;
  family = 2;
  protocol = 6;
  event_type = connect_exit;
  retval = ret;
  latency_us = latency_us;
}

-- A thread that enters connect() with a readable IPv4 address while the map has a place for it, and
-- leaves it after any calls of other threads: the exit event carries the time of leaving, the
-- process, the result and the time between the two calls, modulo 2^64 ns, in whole microseconds; and
-- the others' events keep their order before it.
pub run-latency :
    (k : Kernel) (key t0 t1 ret addr_len : ℕ) (user : List ℕ) (target : Target) (ops : List Op)
    → HasRoom key k.connect_start
    → 2 ≤ addr_len
    → read_sockaddr_in user addr_len ≡ some target
    → target.family ≡ af_inet
    → All (λ op. thread op ≢ key) ops
    → (run k (enter key t0 user addr_len ∷ (ops ++ (exit key t1 ret ∷ [])))).events
      ≡ (run (step k (enter key t0 user addr_len)) ops).events
        ++ (left_event key t1 ret ((t1 + u64_mod - t0) % u64_mod / 1000) ∷ [])
unfolding run
run-latency k key t0 t1 ret addr_len user target ops room long readable v4 others =
    let k1 = step k (enter key t0 user addr_len) in
    let stored =
      ap (lookup key) (step-enter k key t0 addr_len user target long readable v4)
      ∙ lookup-update_self key t0 k.connect_start room in
    ap (λ l. l.events) (run-append k1 ops (exit key t1 ret))
    ∙ step-exit (run k1 ops) key t1 ret t0 (run-other k1 ops key others ∙ stored)

update-IsValid :
    (p ts : ℕ) (m : List (ℕ × ℕ)) (q : ℕ)
    → length m ≤ max_entries
    → entries q m ≤ 1
    → (length (update p ts m) ≤ max_entries) × (entries q (update p ts m) ≤ 1)
unfolding update entries
update-IsValid p ts m q b d = ground (arith, replace-shape p ts m q, lookup-entries p m)

step-IsValid : (k : Kernel) (op : Op) → IsValid k → IsValid (step k op)
unfolding step sys_enter_connect sys_exit_connect
step-IsValid k (enter p ts user addr_len) v = record {
  bounded =
      ground (arith, v.bounded, update-IsValid p ts k.connect_start p v.bounded (v.distinct p));
  distinct = λ q.
      ground (arith, v.distinct q, update-IsValid p ts k.connect_start q v.bounded (v.distinct q));
}
step-IsValid k (exit p ts ret) v = record {
  bounded = ground (arith, v.bounded, delete-shape p k.connect_start p);
  distinct = λ q. ground (arith, v.distinct q, delete-shape p k.connect_start q);
}

run-IsValid : (k : Kernel) (ops : List Op) → IsValid k → IsValid (run k ops)
unfolding run
run-IsValid k [] v = v
run-IsValid k (op ∷ ops) v = run-IsValid (step k op) ops (step-IsValid k op v)

none_twice : (key : ℕ) → entries key [] ≤ 1
unfolding entries
none_twice key = omega arith

abbrev pub empty : Kernel
empty = record { connect_start = []; events = [] }

step-exit_gone :
    (k : Kernel) (key ts ret : ℕ)
    → IsValid k
    → lookup key (step k (exit key ts ret)).connect_start ≡ none
unfolding step sys_exit_connect
step-exit_gone k key ts ret v =
    let gone = delete-shape key k.connect_start key in
    let few = v.distinct key in
    ground (arith, entries-lookup key (delete key k.connect_start) (ground arith))

-- After any interleaving of calls, the map has at most 1024 entries and none of a key twice; and
-- once a thread has left connect(), it has no start time, so that a later exit without an entry is
-- not measured from an old one.
pub run-empty-IsValid :
    (ops : List Op) (key ts ret : ℕ)
    → IsValid (run empty ops)
      × (lookup key (run empty (ops ++ (exit key ts ret ∷ []))).connect_start ≡ none)
run-empty-IsValid ops key ts ret =
    let v = run-IsValid empty ops (record { bounded = omega arith; distinct = none_twice }) in
    (
      v,
      ap (λ k. lookup key k.connect_start) (run-append empty ops (exit key ts ret))
          ∙ step-exit_gone (run empty ops) key ts ret v,
    )
