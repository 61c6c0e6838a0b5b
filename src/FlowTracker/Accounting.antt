-- ===== src/FlowTracker/Accounting.antt =====
-- What the two update functions count, and which events they emit.
use stb_e_bpf.Base.{
  ℕ, ◌+◌, ◌%◌, ◌<◌, ◌≡◌, refl, inl, inr, Bool, none, some, List, [], ◌∷◌, ◌++◌, arith, ltb,
  if◌then◌else◌, Option-cases, length, u64_mod,
}
use stb_e_bpf.Flow.{FlowKey, FlowEvent, ProcNetEntry, key_eq}
use stb_e_bpf.Flow.Key.{key_eq_iff}
use stb_e_bpf.FlowTracker.{
  FlowRecord, FlowTracker, zero_record, find_record, count_packet, count_queues, delta_bytes,
  entry_key, update_entry, add_event, flow_event, flow_tracker_update_single,
}
use stb_e_bpf.FlowTracker.View.{view, Keeps, map?}
use stb_e_bpf.FlowTracker.Slots.{
  start, find_record-writes, find_record-none, find_record-start, start-none, start-view,
}

-- `add_event` on the list of events.
abbrev pub emit : FlowTracker → FlowEvent → List FlowEvent
emit ft ev = if ltb (length ft.events) ft.max_events then ft.events ++ (ev ∷ []) else ft.events

pub find_record-events :
    (ft : FlowTracker) (key : FlowKey) (now : ℕ)
    → ((find_record ft key now).1.events ≡ ft.events)
      × ((find_record ft key now).1.max_events ≡ ft.max_events)
unfolding find_record
find_record-events ft key now = ground arith

pub count_packet-Keeps : (bytes ts : ℕ) → Keeps (count_packet bytes ts)
unfolding count_packet
count_packet-Keeps bytes ts r = (refl, refl)

pub count_queues-Keeps : (e : ProcNetEntry) (ts : ℕ) → Keeps (count_queues e ts)
unfolding count_queues
count_queues-Keeps e ts r = (refl, refl)

-- Which record and which event a packet writes.
pub update_single-start :
    (ft : FlowTracker) (key k : FlowKey) (bytes : ℕ) (probe_id : List ℕ) (ts now : ℕ)
    → (view k (flow_tracker_update_single ft key bytes probe_id ts now).records ≡ (
        if key_eq key k
        then map? (count_packet bytes ts) (start key now ft.records)
        else view k ft.records))
      × ((flow_tracker_update_single ft key bytes probe_id ts now).events
          ≡ elim (start key now ft.records) [
            | none ↦ ft.events
            | some r ↦ emit ft (flow_event key bytes probe_id ts)
          ])
unfolding flow_tracker_update_single add_event
update_single-start ft key k bytes probe_id ts now =
    let same = find_record-events ft key now in
    elim (Option-cases (find_record ft key now).0) [
      | inl e ↦
          let (kept, s) = find_record-none ft key now e in
          (ground (arith, start-none key k now ft.records (count_packet bytes ts) s), ground arith)
      | inr (i, e) ↦
          let s = find_record-start ft key now i zero_record e in
          (
            ground (
              arith,
              find_record-writes ft key k now i (count_packet bytes ts)
                  (count_packet-Keeps bytes ts) e,
            ),
            ground arith,
          )
    ]

-- One round of `flow_tracker_update` sets the record's queues and adds the growth of the two
-- queues to it, and changes no other key; it appends one event with that growth if there was any
-- growth and the event buffer has room, else none.
pub update_entry-counts :
    (ft : FlowTracker) (e : ProcNetEntry) (k : FlowKey) (ts now : ℕ)
    → (view k (update_entry ft e ts now).records ≡ (
        if key_eq (entry_key e) k
        then map? (count_queues e ts) (start (entry_key e) now ft.records)
        else view k ft.records))
      × ((update_entry ft e ts now).events ≡ elim (start (entry_key e) now ft.records) [
        | none ↦ ft.events
        | some r ↦
            if ltb 0 (delta_bytes e r)
            then emit ft (flow_event (entry_key e) (delta_bytes e r) [] ts)
            else ft.events
      ])
unfolding update_entry add_event
update_entry-counts ft e k ts now =
    let same = find_record-events ft (entry_key e) now in
    elim (Option-cases (find_record ft (entry_key e) now).0) [
      | inl h ↦
          let (kept, s) = find_record-none ft (entry_key e) now h in
          (
            ground (arith, start-none (entry_key e) k now ft.records (count_queues e ts) s),
            ground arith,
          )
      | inr (i, h) ↦
          let s = find_record-start ft (entry_key e) now i zero_record h in
          (
            ground (
              arith,
              find_record-writes ft (entry_key e) k now i (count_queues e ts)
                  (count_queues-Keeps e ts) h,
            ),
            ground arith,
          )
    ]

-- A packet as `flow_tracker_update_single` is told of it, with its two clock readings.
pub record Packet : Type 0 where
  pub key : FlowKey
  pub bytes : ℕ
  pub ts : ℕ
  pub now : ℕ

unfoldable pub update_packets : List ℕ → FlowTracker → List Packet → FlowTracker
update_packets probe_id ft [] = ft
update_packets probe_id ft (p ∷ ps) =
    update_packets probe_id (flow_tracker_update_single ft p.key p.bytes probe_id p.ts p.now) ps

-- The bytes and the number of the packets of one key.
unfoldable pub bytes_of : FlowKey → List Packet → ℕ
bytes_of key [] = 0
bytes_of key (p ∷ ps) = (if key_eq p.key key then p.bytes else 0) + bytes_of key ps

unfoldable pub packets_of : FlowKey → List Packet → ℕ
packets_of key [] = 0
packets_of key (p ∷ ps) = (if key_eq p.key key then 1 else 0) + packets_of key ps

update_single-tracked :
    (ft : FlowTracker) (key : FlowKey) (q : Packet) (probe_id : List ℕ) (r : FlowRecord)
    → view key ft.records ≡ some r
    → view key (flow_tracker_update_single ft q.key q.bytes probe_id q.ts q.now).records
      ≡ some (if key_eq q.key key then count_packet q.bytes q.ts r else r)
update_single-tracked ft key q probe_id r v = ground (
  arith,
  (update_single-start ft q.key key q.bytes probe_id q.ts q.now).0,
  start-view key q.now ft.records r v,
  key_eq_iff q.key key,
)

count_packet-values :
    (bytes ts : ℕ) (r : FlowRecord) (mine : Bool)
    → r.value.bytes < u64_mod
    → r.value.packets < u64_mod
    → ((if mine then count_packet bytes ts r else r).value.bytes
        ≡ (r.value.bytes + (if mine then bytes else 0)) % u64_mod)
      × ((if mine then count_packet bytes ts r else r).value.packets
          ≡ (r.value.packets + (if mine then 1 else 0)) % u64_mod)
unfolding count_packet
count_packet-values bytes ts r mine b p = ground arith

-- Over any sequence of packets, of this and of other keys, a tracked key stays tracked, and its
-- counters grow by the bytes and by the number of its own packets, modulo 2^64.
pub update_packets-counts :
    (probe_id : List ℕ) (key : FlowKey) (ps : List Packet) (ft : FlowTracker) (r : FlowRecord)
    → view key ft.records ≡ some r
    → r.value.bytes < u64_mod
    → r.value.packets < u64_mod
    → (r' : FlowRecord) × (view key (update_packets probe_id ft ps).records ≡ some r')
      × (r'.value.bytes ≡ (r.value.bytes + bytes_of key ps) % u64_mod)
      × (r'.value.packets ≡ (r.value.packets + packets_of key ps) % u64_mod)
unfolding update_packets bytes_of packets_of
update_packets-counts probe_id key [] ft r v b p = (r, v, omega arith, omega arith)
update_packets-counts probe_id key (q ∷ ps) ft r v b p =
    let counted = if key_eq q.key key then count_packet q.bytes q.ts r else r in
    let (nb, np) = count_packet-values q.bytes q.ts r (key_eq q.key key) b p in
    let (r', v', b', p') =
      update_packets-counts probe_id key ps
        (flow_tracker_update_single ft q.key q.bytes probe_id q.ts q.now) counted
        (update_single-tracked ft key q probe_id r v) (omega arith) (omega arith) in
    (r', v', omega arith, omega arith)
