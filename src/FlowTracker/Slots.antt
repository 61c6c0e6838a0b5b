-- ===== src/FlowTracker/Slots.antt =====
-- `find_record` against the abstract view: which record a call counts into.
use stb_e_bpf.Base.{
  ℕ, zero, suc, ◌≡◌, refl, ap, inl, inr, Option, none, some, List, [], ◌∷◌, arith, if◌then◌else◌,
  Option-cases, get_elem?, modify, get_or,
}
use stb_e_bpf.Flow.{FlowKey, key_eq}
use stb_e_bpf.Flow.Key.{key_eq_iff, key_eq_refl}
use stb_e_bpf.FlowTracker.{FlowRecord, FlowTracker, find_active, find_free, find_record, claim}
use stb_e_bpf.FlowTracker.View.{
  view, Keeps, map?, find_active-some, find_active-none, view-modify, view-claim,
}

-- The first record that is not active.
unfoldable pub free_slot : List FlowRecord → Option FlowRecord
free_slot [] = none
free_slot (r ∷ rs) = if r.active then free_slot rs else some r

-- The record that a call for `key` counts into: the tracked one, or else a free slot as `claim`
-- leaves it, or none when the table is full.
unfoldable pub start : FlowKey → ℕ → List FlowRecord → Option FlowRecord
start key now rs = elim (view key rs) [
  | some r ↦ some r
  | none ↦ map? (claim key now) (free_slot rs)
]

find_free-slot :
    (rs : List FlowRecord) (i : ℕ)
    → find_free rs ≡ some i
    → (r : FlowRecord) × (free_slot rs ≡ some r) × (get_elem? rs i ≡ some r)
unfolding find_free free_slot
find_free-slot [] i h = absurd (ground arith)
find_free-slot (r ∷ rs) zero h = (r, ground arith, refl)
find_free-slot (r ∷ rs) (suc i) h =
    let (s, v, e) = find_free-slot rs i (ground arith) in (s, ground arith, e)

find_free-none : (rs : List FlowRecord) → find_free rs ≡ none → free_slot rs ≡ none
unfolding find_free free_slot
find_free-none [] h = refl
find_free-none (r ∷ rs) h = ground (arith, find_free-none rs)

modify-modify :
    (rs : List FlowRecord) (i : ℕ) (f g : FlowRecord → FlowRecord)
    → modify (modify rs i f) i g ≡ modify rs i (λ r. g (f r))
modify-modify [] i f g = refl
modify-modify (r ∷ rs) zero f g = refl
modify-modify (r ∷ rs) (suc i) f g = ap (λ t. r ∷ t) (modify-modify rs i f g)

pub find_active-claim :
    (key : FlowKey) (now : ℕ) (rs : List FlowRecord) (i : ℕ)
    → find_active key rs ≡ none
    → find_free rs ≡ some i
    → find_active key (modify rs i (claim key now)) ≡ some i
unfolding find_active find_free claim
find_active-claim key now [] i a f = absurd (ground arith)
find_active-claim key now (r ∷ rs) zero a f = ground (arith, key_eq_refl key)
find_active-claim key now (r ∷ rs) (suc i) a f = ground (arith, find_active-claim key now rs i)

-- A write through the pointer that `find_record` returns shows at its key, on top of `start`,
-- and at no other key. Where it returns NULL the tracker stays as it was.
pub find_record-writes :
    (ft : FlowTracker) (key k : FlowKey) (now i : ℕ) (g : FlowRecord → FlowRecord)
    → Keeps g
    → (find_record ft key now).0 ≡ some i
    → view k (modify (find_record ft key now).1.records i g)
      ≡ (if key_eq key k then map? g (start key now ft.records) else view k ft.records)
unfolding find_record start
find_record-writes ft key k now i g keep found = elim (Option-cases (find_active key ft.records)) [
  | inr (j, a) ↦
      let (r, v, e, kr, ar) = find_active-some key ft.records j a in
      ground (arith, view-modify key k ft.records j g keep a, key_eq_iff key k)
  | inl a ↦ elim (Option-cases (find_free ft.records)) [
    | inl f ↦ absurd (ground arith)
    | inr (j, f) ↦
        let (s, v, e) = find_free-slot ft.records j f in
        let none' = find_active-none key ft.records a in
        ground (
          arith,
          view-modify key k (modify ft.records j (claim key now)) j g keep
              (find_active-claim key now ft.records j a f),
          view-claim key k now ft.records j s a f e,
          key_eq_iff key k,
        )
  ]
]

pub find_record-none :
    (ft : FlowTracker) (key : FlowKey) (now : ℕ)
    → (find_record ft key now).0 ≡ none
    → ((find_record ft key now).1 ≡ ft) × (start key now ft.records ≡ none)
unfolding find_record start
find_record-none ft key now h =
    ground (arith, find_active-none key ft.records, find_free-none ft.records)

get_elem?-modify :
    (rs : List FlowRecord) (i : ℕ) (r : FlowRecord) (f : FlowRecord → FlowRecord)
    → get_elem? rs i ≡ some r
    → get_elem? (modify rs i f) i ≡ some (f r)
get_elem?-modify [] i r f h = absurd (ground arith)
get_elem?-modify (s ∷ rs) zero r f h = ground arith
get_elem?-modify (s ∷ rs) (suc i) r f h = get_elem?-modify rs i r f h

get_or-get_elem? :
    (rs : List FlowRecord) (i : ℕ) (r d : FlowRecord) → get_elem? rs i ≡ some r → get_or rs i d ≡ r
get_or-get_elem? [] i r d h = absurd (ground arith)
get_or-get_elem? (s ∷ rs) zero r d h = ground arith
get_or-get_elem? (s ∷ rs) (suc i) r d h = get_or-get_elem? rs i r d h

-- The record that the pointer points to is `start`.
pub find_record-start :
    (ft : FlowTracker) (key : FlowKey) (now i : ℕ) (d : FlowRecord)
    → (find_record ft key now).0 ≡ some i
    → start key now ft.records ≡ some (get_or (find_record ft key now).1.records i d)
unfolding find_record start
find_record-start ft key now i d found = elim (Option-cases (find_active key ft.records)) [
  | inr (j, a) ↦
      let (r, v, e, kr, ar) = find_active-some key ft.records j a in
      ground (arith, get_or-get_elem? ft.records j r d e)
  | inl a ↦ elim (Option-cases (find_free ft.records)) [
    | inl f ↦ absurd (ground arith)
    | inr (j, f) ↦
        let (s, v, e) = find_free-slot ft.records j f in
        let none' = find_active-none key ft.records a in
        let e' = get_elem?-modify ft.records j s (claim key now) e in
        ground
          (arith, get_or-get_elem? (modify ft.records j (claim key now)) j (claim key now s) d e')
  ]
]

-- When a call finds no record, its key is not in view.
pub start-none :
    (key k : FlowKey) (now : ℕ) (rs : List FlowRecord) (g : FlowRecord → FlowRecord)
    → start key now rs ≡ none
    → view k rs ≡ (if key_eq key k then map? g (start key now rs) else view k rs)
unfolding start
start-none key k now rs g h = ground (arith, key_eq_iff key k)

pub start-view :
    (key : FlowKey) (now : ℕ) (rs : List FlowRecord) (r : FlowRecord)
    → view key rs ≡ some r
    → start key now rs ≡ some r
unfolding start
start-view key now rs r h = ground arith
