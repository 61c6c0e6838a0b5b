-- ===== src/FlowTracker/Cleanup.antt =====
-- `flow_tracker_cleanup` drops exactly the stale flows.
use stb_e_bpf.Base.{
  ℕ, suc, ◌+◌, ◌-◌, ◌≤◌, ◌≡◌, refl, ap, Option, none, some, List, [], ◌∷◌, arith, if◌then◌else◌,
  length, ltb, ◌&&◌, u64_mod, ◌%◌,
}
use stb_e_bpf.Flow.{FlowKey}
use stb_e_bpf.FlowTracker.{FlowRecord, FlowTracker, is_stale, clean_records, flow_tracker_cleanup}
use stb_e_bpf.FlowTracker.View.{view}
use stb_e_bpf.FlowTracker.Invariant.{count_active, count_key, IsValid}

length-clean :
    (ts age : ℕ) (rs : List FlowRecord) (n : ℕ) → length (clean_records ts age rs n).0 ≡ length rs
unfolding clean_records
length-clean ts age [] n = refl
length-clean ts age (r ∷ rs) n =
    ap suc (length-clean ts age rs (if is_stale ts age r then n - 1 else n))

-- The counter goes down by the number of records that are switched off.
counts-clean :
    (ts age : ℕ) (rs : List FlowRecord) (n : ℕ)
    → count_active rs ≤ n
    → (clean_records ts age rs n).1 + count_active rs
      ≡ n + count_active (clean_records ts age rs n).0
unfolding clean_records count_active
counts-clean ts age [] n h = omega arith
counts-clean ts age (r ∷ rs) n h =
    ground (arith, counts-clean ts age rs (if is_stale ts age r then n - 1 else n))

count_key-clean :
    (ts age : ℕ) (rs : List FlowRecord) (n : ℕ) (key : FlowKey)
    → count_key key (clean_records ts age rs n).0 ≤ count_key key rs
unfolding clean_records count_key
count_key-clean ts age [] n key = omega arith
count_key-clean ts age (r ∷ rs) n key =
    ground (arith, count_key-clean ts age rs (if is_stale ts age r then n - 1 else n) key)

pub cleanup-IsValid :
    (ft : FlowTracker) (age ts : ℕ) → IsValid ft → IsValid (flow_tracker_cleanup ft age ts)
unfolding flow_tracker_cleanup
cleanup-IsValid ft age ts v = record {
  width = omega (arith, v.width, length-clean ts age ft.records ft.active_count);
  counted =
      omega (
        arith,
        v.counted,
        counts-clean ts age ft.records ft.active_count (omega (arith, v.counted)),
      );
  sized = v.sized;
  bounded = v.bounded;
  distinct = λ k. omega (arith, v.distinct k, count_key-clean ts age ft.records ft.active_count k);
}

count_key-zero : (key : FlowKey) (rs : List FlowRecord) → count_key key rs ≡ 0 → view key rs ≡ none
unfolding count_key view
count_key-zero key [] h = refl
count_key-zero key (r ∷ rs) h = ground (arith, count_key-zero key rs)

-- What becomes of a record in view: it is out of view if it has been seen and its last packet is
-- more than `age` old, modulo 2^64, and stays as it was otherwise.
abbrev pub survivor : ℕ → ℕ → Option FlowRecord → Option FlowRecord
survivor ts age none = none
survivor ts age (some r) =
    if ltb 0 r.value.last_seen_ns && ltb age ((ts + u64_mod - r.value.last_seen_ns) % u64_mod)
    then none
    else some r

view-clean :
    (ts age : ℕ) (rs : List FlowRecord) (n : ℕ) (key : FlowKey)
    → count_key key rs ≤ 1
    → view key (clean_records ts age rs n).0 ≡ survivor ts age (view key rs)
unfolding clean_records view count_key
view-clean ts age [] n key h = refl
view-clean ts age (r ∷ rs) n key h = ground (
  arith,
  view-clean ts age rs (if is_stale ts age r then n - 1 else n) key,
  count_key-zero key rs,
)

-- For a valid tracker, cleaning at time `ts` takes out of view exactly the flows whose time of the
-- last packet is not zero and lies more than `max_age_ns` before `ts`, as a difference modulo 2^64,
-- and leaves every other record as it was; the tracker stays valid, so the count of active flows
-- matches, and no event is lost.
pub cleanup-drops_stale :
    (ft : FlowTracker) (max_age_ns ts : ℕ) (key : FlowKey)
    → IsValid ft
    → (view key (flow_tracker_cleanup ft max_age_ns ts).records
        ≡ survivor ts max_age_ns (view key ft.records))
      × IsValid (flow_tracker_cleanup ft max_age_ns ts)
      × ((flow_tracker_cleanup ft max_age_ns ts).events ≡ ft.events)
unfolding flow_tracker_cleanup
cleanup-drops_stale ft max_age_ns ts key v = (
  view-clean ts max_age_ns ft.records ft.active_count key (v.distinct key),
  cleanup-IsValid ft max_age_ns ts v,
  refl,
)
