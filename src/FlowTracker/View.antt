-- ===== src/FlowTracker/View.antt =====
-- The abstract view of the table: the record that a key has, if it is tracked.
use stb_e_bpf.Base.{
  ℕ, zero, suc, ◌≡◌, refl, true, ◌&&◌, Option, none, some, List, [], ◌∷◌, arith, if◌then◌else◌,
  get_elem?, modify,
}
use stb_e_bpf.Flow.{FlowKey, key_eq}
use stb_e_bpf.Flow.Key.{key_eq_iff}
use stb_e_bpf.FlowTracker.{FlowRecord, find_active, find_free, claim}

unfoldable pub view : FlowKey → List FlowRecord → Option FlowRecord
view key [] = none
view key (r ∷ rs) = if r.active && key_eq r.key key then some r else view key rs

-- A write that leaves the key and the mark of the record alone.
abbrev pub Keeps : (FlowRecord → FlowRecord) → Type 0
Keeps g = (r : FlowRecord) → ((g r).key ≡ r.key) × ((g r).active ≡ r.active)

abbrev pub map? : (FlowRecord → FlowRecord) → Option FlowRecord → Option FlowRecord
map? g none = none
map? g (some r) = some (g r)

-- The index that the first loop finds is that of the record in view.
pub find_active-some :
    (key : FlowKey) (rs : List FlowRecord) (i : ℕ)
    → find_active key rs ≡ some i
    → (r : FlowRecord) × (view key rs ≡ some r)
      × (get_elem? rs i ≡ some r)
      × (r.key ≡ key)
      × (r.active ≡ true)
unfolding find_active view
find_active-some key [] i h = absurd (ground arith)
find_active-some key (r ∷ rs) zero h =
    (r, ground arith, refl, ground (arith, key_eq_iff r.key key), ground arith)
find_active-some key (r ∷ rs) (suc i) h =
    let (s, v, e, k, a) = find_active-some key rs i (ground arith) in (s, ground arith, e, k, a)

pub find_active-none :
    (key : FlowKey) (rs : List FlowRecord) → find_active key rs ≡ none → view key rs ≡ none
unfolding find_active view
find_active-none key [] h = refl
find_active-none key (r ∷ rs) h = ground (arith, find_active-none key rs)

-- A write to the record of `key` shows at that key and at no other.
pub view-modify :
    (key k : FlowKey) (rs : List FlowRecord) (i : ℕ) (g : FlowRecord → FlowRecord)
    → Keeps g
    → find_active key rs ≡ some i
    → view k (modify rs i g) ≡ (if key_eq key k then map? g (view k rs) else view k rs)
unfolding find_active view
view-modify key k [] i g keep h = absurd (ground arith)
view-modify key k (r ∷ rs) zero g keep h =
    ground (arith, keep r, key_eq_iff r.key key, key_eq_iff key k, key_eq_iff r.key k)
view-modify key k (r ∷ rs) (suc i) g keep h = ground (
  arith,
  view-modify key k rs i g keep,
  key_eq_iff r.key key,
  key_eq_iff key k,
  key_eq_iff r.key k,
)

-- A claimed slot shows at its new key and at no other, if that key was not tracked.
pub view-claim :
    (key k : FlowKey) (now : ℕ) (rs : List FlowRecord) (i : ℕ) (r : FlowRecord)
    → find_active key rs ≡ none
    → find_free rs ≡ some i
    → get_elem? rs i ≡ some r
    → view k (modify rs i (claim key now))
      ≡ (if key_eq key k then some (claim key now r) else view k rs)
unfolding find_active find_free view claim
view-claim key k now [] i r a f g = absurd (ground arith)
view-claim key k now (s ∷ rs) zero r a f g =
    ground (arith, find_active-none key rs, key_eq_iff key k)
view-claim key k now (s ∷ rs) (suc i) r a f g =
    ground (
      arith,
      view-claim key k now rs i r,
      key_eq_iff s.key key,
      key_eq_iff key k,
      key_eq_iff s.key k,
    )
