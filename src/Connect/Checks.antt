-- ===== src/Connect/Checks.antt =====
-- The handlers on concrete calls.
use stb_e_bpf.Base.{
  ℕ, ◌≡◌, refl, inr, none, some, List, [], ◌∷◌, ◌++◌, arith, slice, be16, le16, le32,
}
use stb_e_bpf.Connect.{Target, read_sockaddr_in, lookup}
use stb_e_bpf.Connect.Latency.{
  left_event, Op, step, run, IsValid, empty, enter, exit, run-latency, run-empty-IsValid,
}

-- 10.0.0.1, port 80.
abbrev user : List ℕ
user = 2 ∷ 0 ∷ 0 ∷ 80 ∷ 10 ∷ 0 ∷ 0 ∷ 1 ∷ 0 ∷ 0 ∷ 0 ∷ 0 ∷ 0 ∷ 0 ∷ 0 ∷ 0 ∷ []

abbrev target : Target
target = record { family = 2; daddr = 0x0100_000A; dport = 80 }

abbrev others : List Op
others = enter 8 1500 user 16 ∷ exit 8 1600 0 ∷ []

readable : read_sockaddr_in user 16 ≡ some target
unfolding read_sockaddr_in slice le16 le32 be16
readable = refl

run-latency_example :
    (run empty (enter 7 1000 user 16 ∷ (others ++ (exit 7 5000 0 ∷ [])))).events
    ≡ (run (step empty (enter 7 1000 user 16)) others).events ++ (left_event 7 5000 0 4 ∷ [])
run-latency_example =
    run-latency empty 7 1000 5000 0 16 user target others (inr (omega arith)) (omega arith) readable
      refl ((omega arith), ((omega arith), tt))

run-empty-IsValid_example :
    IsValid (run empty others)
    × (lookup 8 (run empty (others ++ (exit 8 1700 0 ∷ []))).connect_start ≡ none)
run-empty-IsValid_example = run-empty-IsValid others 8 1700 0
