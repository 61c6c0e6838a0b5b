-- ===== src/FlowTracker/Ledger/Refinement.antt =====
-- How the table of src/flow_tracker.c holds a ledger, and what each write to it does there.
use stb_e_bpf.Base.{
  ℕ, zero, suc, ◌-◌, ◌≡◌, refl, ap, inl, inr, true, false, Option-cases, none, some, List, [], ◌∷◌,
  arith, length, length-modify, modify, replicate,
}
use stb_e_bpf.Flow.{FlowKey}
use stb_e_bpf.Flow.Key.{key_eq_iff}
use stb_e_bpf.FlowTracker.{
  FlowRecord, FlowTracker, zero_record, find_active, find_free, find_record, claim, count_packet,
}
use stb_e_bpf.FlowTracker.Slots.{find_active-claim}
use stb_e_bpf.FlowTracker.Ledger.{Account, enter, credit}

-- A record that holds an account.
abbrev pub Holds : Account → FlowRecord → Type 0
Holds a r =
    (r.active ≡ true) × (r.key ≡ a.key) × (r.value.bytes ≡ a.bytes) × (r.value.packets ≡ a.packets)

-- The table holds the accounts in its first slots, and the others are as they were made.
unfoldable pub Refines : List Account → List FlowRecord → Type 0
Refines [] [] = Unit
Refines [] (r ∷ rs) = (r ≡ zero_record) × Refines [] rs
Refines (a ∷ as') [] = ⊥
Refines (a ∷ as') (r ∷ rs) = Holds a r × Refines as' rs

pub created-Refines : (n : ℕ) → Refines [] (replicate n zero_record)
unfolding Refines
created-Refines zero = tt
created-Refines (suc n) = (refl, created-Refines n)

-- A table as it was made tracks nothing, and a record of it is not active.
fresh_active : (r : FlowRecord) → r ≡ zero_record → r.active ≡ false
fresh_active r h = ap FlowRecord.active h

fresh-untracked : (rs : List FlowRecord) (key : FlowKey) → Refines [] rs → find_active key rs ≡ none
unfolding Refines find_active
fresh-untracked [] key h = refl
fresh-untracked (r ∷ rs) key h = ground (arith, fresh_active r h.0, fresh-untracked rs key h.1)

-- A key that is not tracked, in a table with a free slot: claiming it enters the key.
claim-Refines :
    (as' : List Account) (rs : List FlowRecord) (key : FlowKey) (now i : ℕ)
    → Refines as' rs
    → find_active key rs ≡ none
    → find_free rs ≡ some i
    → Refines (enter (length rs) key as') (modify rs i (claim key now))
unfolding Refines find_active find_free claim enter
claim-Refines [] [] key now i h a f = absurd (ground arith)
claim-Refines [] (r ∷ rs) key now zero h a f = (
  (
    refl,
    refl,
    ap (λ (s : FlowRecord). s.value.bytes) h.0,
    ap (λ (s : FlowRecord). s.value.packets) h.0,
  ),
  h.1,
)
claim-Refines [] (r ∷ rs) key now (suc i) h a f = absurd (ground (arith, fresh_active r h.0))
claim-Refines (b ∷ as') [] key now i h a f = absurd h
claim-Refines (b ∷ as') (r ∷ rs) key now i h a f =
    ground (arith, claim-Refines as' rs key now (i - 1), key_eq_iff b.key key, h.0, h.1)

-- In a full table without it, a key that is not tracked is not entered either.
full-Refines :
    (as' : List Account) (rs : List FlowRecord) (key : FlowKey)
    → Refines as' rs
    → find_active key rs ≡ none
    → find_free rs ≡ none
    → Refines (enter (length rs) key as') rs
unfolding Refines find_active find_free enter
full-Refines [] [] key h a f = tt
full-Refines [] (r ∷ rs) key h a f = absurd (ground (arith, fresh_active r h.0))
full-Refines (b ∷ as') [] key h a f = absurd h
full-Refines (b ∷ as') (r ∷ rs) key h a f = ground (arith, full-Refines as' rs key, h.0, h.1)

-- A tracked key is there already.
tracked-Refines :
    (as' : List Account) (rs : List FlowRecord) (key : FlowKey) (i : ℕ)
    → Refines as' rs
    → find_active key rs ≡ some i
    → Refines (enter (length rs) key as') rs
unfolding Refines find_active enter
tracked-Refines [] [] key i h a = absurd (ground arith)
tracked-Refines [] (r ∷ rs) key i h a = absurd (ground (arith, fresh-untracked (r ∷ rs) key h))
tracked-Refines (b ∷ as') [] key i h a = absurd h
tracked-Refines (b ∷ as') (r ∷ rs) key i h a =
    ground (arith, tracked-Refines as' rs key (i - 1), h.0, h.1)

-- The search enters the key.
pub find_record-Refines :
    (as' : List Account) (ft : FlowTracker) (key : FlowKey) (now : ℕ)
    → Refines as' ft.records
    → Refines (enter (length ft.records) key as') (find_record ft key now).1.records
unfolding find_record
find_record-Refines as' ft key now h = elim (Option-cases (find_active key ft.records)) [
  | inr (i, a) ↦ rw (a, find_record) (tracked-Refines as' ft.records key i h a)
  | inl a ↦ elim (Option-cases (find_free ft.records)) [
    | inr (i, f) ↦ rw (a, find_record) (rw f (claim-Refines as' ft.records key now i h a f))
    | inl f ↦ rw (a, find_record) (rw f (full-Refines as' ft.records key h a f))
  ]
]

-- Where the search returns a slot, it is that of the key, and otherwise the key is not tracked.
pub find_record-active :
    (ft : FlowTracker) (key : FlowKey) (now : ℕ)
    → find_active key (find_record ft key now).1.records ≡ (find_record ft key now).0
unfolding find_record
find_record-active ft key now = elim (Option-cases (find_active key ft.records)) [
  | inr (i, a) ↦ rw (a, find_record) a
  | inl a ↦ elim (Option-cases (find_free ft.records)) [
    | inr (i, f) ↦ rw (a, find_record) (rw f (find_active-claim key now ft.records i a f))
    | inl f ↦ rw (a, find_record) (rw f a)
  ]
]

pub length-find_record :
    (ft : FlowTracker) (key : FlowKey) (now : ℕ)
    → length (find_record ft key now).1.records ≡ length ft.records
unfolding find_record
length-find_record ft key now = elim (Option-cases (find_active key ft.records)) [
  | inr (i, a) ↦ rw (a, find_record) refl
  | inl a ↦ elim (Option-cases (find_free ft.records)) [
    | inr (i, f) ↦ rw (a, find_record) (rw f (length-modify ft.records i (claim key now)))
    | inl f ↦ rw (a, find_record) (rw f refl)
  ]
]

-- Counting into the slot of a key credits its account.
pub count-Refines :
    (as' : List Account) (rs : List FlowRecord) (key : FlowKey) (bytes ts i : ℕ)
    → Refines as' rs
    → find_active key rs ≡ some i
    → Refines (credit key bytes as') (modify rs i (count_packet bytes ts))
unfolding Refines find_active credit count_packet
count-Refines [] rs key bytes ts i h a = absurd (ground (arith, fresh-untracked rs key h))
count-Refines (b ∷ as') [] key bytes ts i h a = absurd h
count-Refines (b ∷ as') (r ∷ rs) key bytes ts i h a =
    ground (arith, count-Refines as' rs key bytes ts (i - 1), h.0, h.1)

-- A key that is not tracked has no account to credit.
pub credit-untracked :
    (as' : List Account) (rs : List FlowRecord) (key : FlowKey) (bytes : ℕ)
    → Refines as' rs
    → find_active key rs ≡ none
    → credit key bytes as' ≡ as'
unfolding Refines find_active credit
credit-untracked [] rs key bytes h a = refl
credit-untracked (b ∷ as') [] key bytes h a = absurd h
credit-untracked (b ∷ as') (r ∷ rs) key bytes h a =
    ground (arith, credit-untracked as' rs key bytes, h.0, h.1)

-- A write that leaves what is counted alone.
abbrev pub Spares : (FlowRecord → FlowRecord) → Type 0
Spares g =
    (r : FlowRecord)
    → ((g r).active ≡ r.active)
      × ((g r).key ≡ r.key)
      × ((g r).value.bytes ≡ r.value.bytes)
      × ((g r).value.packets ≡ r.value.packets)

pub spare-Refines :
    (as' : List Account) (rs : List FlowRecord) (key : FlowKey) (i : ℕ)
    (g : FlowRecord → FlowRecord)
    → Spares g
    → Refines as' rs
    → find_active key rs ≡ some i
    → Refines as' (modify rs i g)
unfolding Refines find_active
spare-Refines [] rs key i g s h a = absurd (ground (arith, fresh-untracked rs key h))
spare-Refines (b ∷ as') [] key i g s h a = absurd h
spare-Refines (b ∷ as') (r ∷ rs) key i g s h a =
    ground (arith, spare-Refines as' rs key (i - 1) g s, s r, h.0, h.1)
