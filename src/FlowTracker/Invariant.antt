-- ===== src/FlowTracker/Invariant.antt =====
-- The tracker's invariant, and that every operation keeps it.
use stb_e_bpf.Base.{
  ℕ, zero, suc, ◌+◌, ◌*◌, ◌≤◌, ◌≡◌, refl, inl, inr, true, ◌&&◌, none, some, List, [], ◌∷◌, arith,
  ltb, if◌then◌else◌, ltb→lt, Bool-cases, Option-cases, length, modify, replicate, length-append,
  length-modify,
}
use stb_e_bpf.Flow.{FlowKey, FlowEvent, key_eq}
use stb_e_bpf.Flow.Key.{key_eq_iff}
use stb_e_bpf.FlowTracker.{
  FlowRecord, FlowTracker, zero_record, find_active, find_free, find_record, claim, add_event,
}
use stb_e_bpf.FlowTracker.View.{Keeps}

unfoldable pub count_active : List FlowRecord → ℕ
count_active [] = 0
count_active (r ∷ rs) = (if r.active then 1 else 0) + count_active rs

-- The active records with this key.
unfoldable pub count_key : FlowKey → List FlowRecord → ℕ
count_key key [] = 0
count_key key (r ∷ rs) = (if r.active && key_eq r.key key then 1 else 0) + count_key key rs

pub record IsValid (ft : FlowTracker) : Type 0 where
  pub width : length ft.records ≡ ft.max_flows
  pub counted : ft.active_count ≡ count_active ft.records
  pub sized : ft.max_events ≡ ft.max_flows * 2
  pub bounded : length ft.events ≤ ft.max_events
  pub distinct : (key : FlowKey) → count_key key ft.records ≤ 1

pub count_active-le : (rs : List FlowRecord) → count_active rs ≤ length rs
unfolding count_active
count_active-le [] = omega arith
count_active-le (r ∷ rs) = ground (arith, count_active-le rs)

pub counts-replicate :
    (n : ℕ) (key : FlowKey)
    → (count_active (replicate n zero_record) ≡ 0) × (count_key key (replicate n zero_record) ≡ 0)
unfolding count_active count_key
counts-replicate zero key = (refl, refl)
counts-replicate (suc n) key = ground (arith, counts-replicate n key)

counts-modify :
    (rs : List FlowRecord) (i : ℕ) (g : FlowRecord → FlowRecord) (key : FlowKey)
    → Keeps g
    → (count_active (modify rs i g) ≡ count_active rs)
      × (count_key key (modify rs i g) ≡ count_key key rs)
unfolding count_active count_key
counts-modify [] i g key keep = (refl, refl)
counts-modify (r ∷ rs) zero g key keep = ground (arith, keep r)
counts-modify (r ∷ rs) (suc i) g key keep = ground (arith, counts-modify rs i g key keep)

counts-claim :
    (rs : List FlowRecord) (i : ℕ) (key k : FlowKey) (now : ℕ)
    → find_free rs ≡ some i
    → (count_active (modify rs i (claim key now)) ≡ count_active rs + 1)
      × (count_key k (modify rs i (claim key now))
          ≡ count_key k rs + (if key_eq key k then 1 else 0))
unfolding count_active count_key find_free claim
counts-claim [] i key k now h = absurd (ground arith)
counts-claim (r ∷ rs) zero key k now h = ground arith
counts-claim (r ∷ rs) (suc i) key k now h = ground (arith, counts-claim rs i key k now)

count_key-none :
    (rs : List FlowRecord) (key k : FlowKey)
    → find_active key rs ≡ none
    → key_eq key k ≡ true
    → count_key k rs ≡ 0
unfolding count_key find_active
count_key-none [] key k h e = refl
count_key-none (r ∷ rs) key k h e =
    ground
      (arith, count_key-none rs key k, key_eq_iff key k, key_eq_iff r.key k, key_eq_iff r.key key)

pub find_record-IsValid :
    (ft : FlowTracker) (key : FlowKey) (now : ℕ) → IsValid ft → IsValid (find_record ft key now).1
unfolding find_record
find_record-IsValid ft key now v = elim (Option-cases (find_active key ft.records)) [
  | inr (i, a) ↦ rw (a, find_record) v
  | inl a ↦ elim (Option-cases (find_free ft.records)) [
    | inl f ↦ rw (a, f, find_record) v
    | inr (i, f) ↦
        rw (a, f, find_record)
          (record {
            width = omega (arith, v.width, length-modify ft.records i (claim key now));
            counted = omega (arith, v.counted, (counts-claim ft.records i key key now f).0);
            sized = v.sized;
            bounded = v.bounded;
            distinct = λ k. ground (
              arith,
              v.distinct k,
              counts-claim ft.records i key k now f,
              count_key-none ft.records key k a,
            );
          })
  ]
]

pub modify-IsValid :
    (ft : FlowTracker) (i : ℕ) (g : FlowRecord → FlowRecord)
    → Keeps g
    → IsValid ft
    → IsValid (record ft { records = modify ft.records i g })
modify-IsValid ft i g keep v = record {
  width = omega (arith, v.width, length-modify ft.records i g);
  counted = omega (arith, v.counted, (counts-modify ft.records i g (zero_record.key) keep).0);
  sized = v.sized;
  bounded = v.bounded;
  distinct = λ k. omega (arith, v.distinct k, (counts-modify ft.records i g k keep).1);
}

pub add_event-IsValid : (ft : FlowTracker) (ev : FlowEvent) → IsValid ft → IsValid (add_event ft ev)
unfolding add_event
add_event-IsValid ft ev v = elim (Bool-cases (ltb (length ft.events) ft.max_events)) [
  | inl room ↦ rw room (record {
    width = v.width;
    counted = v.counted;
    sized = v.sized;
    bounded = omega (arith, ltb→lt _ _ room, length-append ft.events (ev ∷ []));
    distinct = v.distinct;
  })
  | inr full ↦ rw full v
]
