-- ===== src/Trace/Timers/Latency.antt =====
-- The times that the timers report, and what else their events hold.
use stb_e_bpf.Base.{
  ℕ, ◌/◌, ◌%◌, ◌<◌, ◌≡◌, ◌≢◌, ◌↔◌, refl, ◌∙◌, Option, some, List, [], ◌∷◌, ◌++◌, arith, length, All,
  sub64,
}
use stb_e_bpf.Connect.{lookup}
use stb_e_bpf.Connect.Latency.{lookup-replace, lookup-delete}
use stb_e_bpf.Trace.{Event, Task, Sock, emit, ntohs}
use stb_e_bpf.Trace.Timers.{
  map_size, put, Tracer, sys_enter, sys_exit, fill_exit, fill_connect, trace_connect,
}

lookup-put :
    (key value q : ℕ) (m : List (ℕ × ℕ)) → key ≢ q → lookup q (put key value m) ≡ lookup q m
unfolding put lookup
lookup-put key value q m h = ground (arith, lookup-replace key value q m)

lookup-put_self :
    (key value : ℕ) (m : List (ℕ × ℕ))
    → length m < map_size
    → lookup key (put key value m) ≡ some value
unfolding put lookup
lookup-put_self key value m room = ground (arith, lookup-replace key value key m)

-- The runs of the two programs on system calls.
pub data Call : Type 0 where
  enter : Task → ℕ → ℕ → Call
  leave : Task → ℕ → ℕ → Call

abbrev pub caller : Call → ℕ
caller (enter t ts id) = t.pid_tgid
caller (leave t now later) = t.pid_tgid

unfoldable pub step : Tracer → Call → Tracer
step k (enter t ts id) = sys_enter t ts id k
step k (leave t now later) = sys_exit t now later k

unfoldable pub run : Tracer → List Call → Tracer
run k [] = k
run k (c ∷ cs) = run (step k c) cs

step-other :
    (k : Tracer) (c : Call) (key : ℕ)
    → caller c ≢ key
    → lookup key (step k c).starts ≡ lookup key k.starts
unfolding step sys_enter sys_exit
step-other k (enter t ts id) key h = lookup-put t.pid_tgid ts key k.starts h
step-other k (leave t now later) key h = ground (arith, lookup-delete t.pid_tgid key k.starts h)

run-other :
    (k : Tracer) (cs : List Call) (key : ℕ)
    → All (λ c. caller c ≢ key) cs
    → lookup key (run k cs).starts ≡ lookup key k.starts
unfolding run
run-other k [] key h = refl
run-other k (c ∷ cs) key h = run-other (step k c) cs key h.1 ∙ step-other k c key h.0

-- A thread enters a system call while the map has room, and leaves it after any calls of other
-- threads, with a place in the ring: the event says how long it took; and the fields that the
-- program does not write hold what was in the memory of the ring, the number of the call among
-- them.
pub sys_exit-latency :
    (k : Tracer) (t : Task) (ts id now later : ℕ) (cs : List Call) (old : Event)
    (rest : List (Option Event))
    → length k.starts < map_size
    → All (λ c. caller c ≢ t.pid_tgid) cs
    → (run (sys_enter t ts id k) cs).rb.reserved ≡ some old ∷ rest
    → let before = run (sys_enter t ts id k) cs in
      let after = sys_exit t now later before in
      (after.rb.events ≡ before.rb.events ++ (fill_exit t later 8 (sub64 now ts) old ∷ []))
      × (lookup t.pid_tgid before.starts ≡ some ts)
unfolding emit sys_exit
sys_exit-latency k t ts id now later cs old rest room others e =
    let own : lookup t.pid_tgid (sys_enter t ts id k).starts ≡ some ts =
      unfold sys_enter in lookup-put_self t.pid_tgid ts k.starts room in
    let found = run-other (sys_enter t ts id k) cs t.pid_tgid others ∙ own in
    (rw (found, sys_exit) (rw (e, emit) refl), found)

-- The program at the entry of tcp_v4_connect swaps the bytes of a port that is not in network
-- order: the local port that it reports is the socket's exactly if its two bytes are equal, while
-- the other port is right.
pub trace_connect-ports :
    (t : Task) (now : ℕ) (sk : Sock) (k : Tracer) (old : Event) (rest : List (Option Event))
    → k.rb.reserved ≡ some old ∷ rest
    → sk.num < 0x1_0000
    → (ev : Event) × ((trace_connect t now sk k).rb.events ≡ k.rb.events ++ (ev ∷ []))
      × ((ev.src_port ≡ sk.num) ↔ (sk.num / 0x100 ≡ sk.num % 0x100))
      × (ev.dst_port ≡ ntohs sk.dport)
unfolding trace_connect emit
trace_connect-ports t now sk k old rest e small =
    (fill_connect t now sk old, rw (e, emit) refl, (λ h. omega arith, λ h. omega arith), refl)
