-- ===== src/FlowTracker.antt =====
-- src/flow_tracker.c: the table of flows and the buffer of pending events. `events` is the part of
-- the event array that counts: `event_count` is its length. Each call of `now_ns` is an argument.
pub mod View
pub mod Slots
pub mod Invariant
pub mod Writes
pub mod Accounting
pub mod Cleanup
pub mod Runs
pub mod Retransmit
pub mod Ledger
mod Checks
use stb_e_bpf.Base.{
  ℕ, zero, suc, ◌+◌, ◌-◌, ◌*◌, ◌%◌, ◌≡◌, Bool, true, false, not, ◌&&◌, ◌||◌, Option, none, some,
  List, [], ◌∷◌, ◌++◌, ltb, leb, ◌==◌, if◌then◌else◌, length, replicate, modify, take, min, set,
  get_or, add64, sub64, add32, has_bits, strncpy, codes,
}
use stb_e_bpf.Flow.{
  FlowKey, key_eq, FlowValue, FlowEvent, zero_event, ProcNetEntry, cat_network, evt_flow,
  is_multicast, tcp_flag_syn, tcp_flag_fin, tcp_flag_ack,
}
use stb_e_bpf.PacketParser.Convert.{protocol_name}

-- `struct flow_record`.
pub record FlowRecord : Type 0 where
  pub key : FlowKey
  pub value : FlowValue
  pub prev_rx_queue : ℕ
  pub prev_tx_queue : ℕ
  pub active : Bool

-- `struct flow_tracker`.
pub record FlowTracker : Type 0 where
  pub records : List FlowRecord
  pub max_flows : ℕ
  pub events : List FlowEvent
  pub max_events : ℕ
  pub active_count : ℕ

-- What `calloc` leaves in a record.
abbrev pub zero_record : FlowRecord
zero_record = record {
  key = record { src_ip = 0; dst_ip = 0; src_port = 0; dst_port = 0; protocol = 0; ip_version = 0 };
  value = record {
    bytes = 0;
    packets = 0;
    first_seen_ns = 0;
    last_seen_ns = 0;
    retransmits = 0;
    dup_acks = 0;
    seq_expected = 0;
  };
  prev_rx_queue = 0;
  prev_tx_queue = 0;
  active = false;
}

-- `flow_tracker_create`; `allocated` says whether all three allocations succeed.
unfoldable pub flow_tracker_create : Bool → ℕ → Option FlowTracker
flow_tracker_create allocated max_flows =
    if allocated
    then some (record {
      records = replicate max_flows zero_record;
      max_flows = max_flows;
      events = [];
      max_events = max_flows * 2;
      active_count = 0;
    })
    else none

abbrev pub succ? : Option ℕ → Option ℕ
succ? none = none
succ? (some i) = some (suc i)

-- The first loop of `find_record`: the active record with this key.
unfoldable pub find_active : FlowKey → List FlowRecord → Option ℕ
find_active key [] = none
find_active key (r ∷ rs) =
    if r.active && key_eq r.key key then some 0 else succ? (find_active key rs)

-- The second loop: the first record that is not active.
unfoldable pub find_free : List FlowRecord → Option ℕ
find_free [] = none
find_free (r ∷ rs) = if r.active then succ? (find_free rs) else some 0

-- What the second loop writes into the slot; the rest of the record stays as it was.
unfoldable pub claim : FlowKey → ℕ → FlowRecord → FlowRecord
claim key now r = record r {
  key = key;
  active = true;
  value = record (r.value) { first_seen_ns = now };
}

-- `find_record`: the index stands for the pointer, `none` for NULL.
unfoldable pub find_record : FlowTracker → FlowKey → ℕ → Option ℕ × FlowTracker
find_record ft key now = elim (find_active key ft.records) [
  | some i ↦ (some i, ft)
  | none ↦ elim (find_free ft.records) [
    | some i ↦ (
      some i,
      record ft {
        records = modify ft.records i (claim key now);
        active_count = ft.active_count + 1;
      },
    )
    | none ↦ (none, ft)
  ]
]

-- `add_event`: an event beyond the capacity is dropped.
unfoldable pub add_event : FlowTracker → FlowEvent → FlowTracker
add_event ft ev =
    if ltb (length ft.events) ft.max_events
    then record ft { events = ft.events ++ (ev ∷ []) }
    else ft

-- The event that both update functions build; `probe_id` is empty in `flow_tracker_update`.
unfoldable pub flow_event : FlowKey → ℕ → List ℕ → ℕ → FlowEvent
flow_event key bytes probe_id ts =
    let ev : FlowEvent = record zero_event {
      timestamp_ns = ts;
      probe_id = strncpy 64 probe_id;
      category = strncpy 16 cat_network;
      event_type = strncpy 16 evt_flow;
      src_ip = key.src_ip;
      dst_ip = key.dst_ip;
      src_port = key.src_port;
      dst_port = key.dst_port;
      bytes = bytes;
      packets = 1;
      protocol = protocol_name key.protocol;
    } in
    if is_multicast key.dst_ip
    then record ev {
      tags = strncpy 64 (codes "iptv,multicast");
      service = strncpy 32 (codes "IPTV");
    }
    else ev

-- The writes of `flow_tracker_update_single` to the record.
unfoldable pub count_packet : ℕ → ℕ → FlowRecord → FlowRecord
count_packet bytes ts r = record r {
  value = record (r.value) {
    bytes = add64 r.value.bytes bytes;
    packets = add64 r.value.packets 1;
    last_seen_ns = ts;
  };
}

-- `flow_tracker_update_single`; `ts` and `now` are what its two clock calls return.
unfoldable pub flow_tracker_update_single : FlowTracker → FlowKey → ℕ → List ℕ → ℕ → ℕ → FlowTracker
flow_tracker_update_single ft key bytes probe_id ts now =
    let (found, ft') = find_record ft key now in
    elim found [
      | none ↦ ft'
      | some i ↦
          add_event (record ft' { records = modify ft'.records i (count_packet bytes ts) })
            (flow_event key bytes probe_id ts)
    ]

-- The key that `flow_tracker_update` builds: `ip_version` is left zero.
abbrev pub entry_key : ProcNetEntry → FlowKey
entry_key e = record {
  src_ip = e.local_ip;
  dst_ip = e.remote_ip;
  src_port = e.local_port;
  dst_port = e.remote_port;
  protocol = e.protocol;
  ip_version = 0;
}

-- A queue's growth since the last poll, and zero if it shrank.
abbrev pub growth : ℕ → ℕ → ℕ
growth queue prev = if leb prev queue then queue - prev else 0

unfoldable pub delta_bytes : ProcNetEntry → FlowRecord → ℕ
delta_bytes e r = add64 (growth e.rx_queue r.prev_rx_queue) (growth e.tx_queue r.prev_tx_queue)

-- The writes of one round to the record.
unfoldable pub count_queues : ProcNetEntry → ℕ → FlowRecord → FlowRecord
count_queues e ts r =
    let delta = delta_bytes e r in
    record r {
      prev_rx_queue = e.rx_queue;
      prev_tx_queue = e.tx_queue;
      value = record (r.value) {
        bytes = add64 r.value.bytes delta;
        packets = add64 r.value.packets (if ltb 0 delta then 1 else 0);
        last_seen_ns = ts;
      };
    }

-- One round of the loop of `flow_tracker_update`.
unfoldable pub update_entry : FlowTracker → ProcNetEntry → ℕ → ℕ → FlowTracker
update_entry ft e ts now =
    let (found, ft') = find_record ft (entry_key e) now in
    elim found [
      | none ↦ ft'
      | some i ↦
          let delta = delta_bytes e (get_or ft'.records i zero_record) in
          let ft'' : FlowTracker = record ft' {
            records = modify ft'.records i (count_queues e ts);
          } in
          if ltb 0 delta then add_event ft'' (flow_event (entry_key e) delta [] ts) else ft''
    ]

-- `flow_tracker_update`; `clock i` is the time that `find_record` sees in round `i`.
unfoldable pub update_from : (ℕ → ℕ) → ℕ → ℕ → FlowTracker → List ProcNetEntry → FlowTracker
update_from clock ts i ft [] = ft
update_from clock ts i ft (e ∷ es) =
    update_from clock ts (i + 1) (update_entry ft e ts (clock i)) es

unfoldable pub flow_tracker_update : FlowTracker → List ProcNetEntry → ℕ → (ℕ → ℕ) → FlowTracker
unfolding update_from
flow_tracker_update ft entries ts clock = update_from clock ts 0 ft entries

-- `flow_tracker_get_events`: the events that are copied; their number is returned.
unfoldable pub flow_tracker_get_events : FlowTracker → ℕ → ℕ × List FlowEvent
flow_tracker_get_events ft max_events =
    let n = if ltb (length ft.events) max_events then length ft.events else max_events in
    (n, take n ft.events)

-- `flow_tracker_flush`.
unfoldable pub flow_tracker_flush : FlowTracker → FlowTracker
flow_tracker_flush ft = record ft { events = [] }

-- The test of `flow_tracker_cleanup`.
abbrev pub is_stale : ℕ → ℕ → FlowRecord → Bool
is_stale ts max_age_ns r =
    r.active && ltb 0 r.value.last_seen_ns && ltb max_age_ns (sub64 ts r.value.last_seen_ns)

-- Its loop, with `active_count` as it goes down.
unfoldable pub clean_records : ℕ → ℕ → List FlowRecord → ℕ → List FlowRecord × ℕ
clean_records ts max_age_ns [] n = ([], n)
clean_records ts max_age_ns (r ∷ rs) n =
    let stale = is_stale ts max_age_ns r in
    let (rest, n') = clean_records ts max_age_ns rs (if stale then n - 1 else n) in
    ((if stale then record r { active = false } else r) ∷ rest, n')

unfoldable pub flow_tracker_cleanup : FlowTracker → ℕ → ℕ → FlowTracker
flow_tracker_cleanup ft max_age_ns ts =
    let (records, n) = clean_records ts max_age_ns ft.records ft.active_count in
    record ft { records = records; active_count = n }

-- `flow_tracker_get_stats`, with both outputs wanted.
unfoldable pub flow_tracker_get_stats : FlowTracker → ℕ × ℕ
flow_tracker_get_stats ft = (ft.active_count, length ft.events)
