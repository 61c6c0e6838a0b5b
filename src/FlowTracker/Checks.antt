-- ===== src/FlowTracker/Checks.antt =====
-- The tracker on concrete flows.
use stb_e_bpf.Base.{
  ℕ, ◌+◌, ◌%◌, ◌≤◌, ◌≡◌, refl, true, false, some, List, [], ◌∷◌, arith, if◌then◌else◌, has_bits,
  u32_mod, u64_mod, codes,
}
use stb_e_bpf.Flow.{FlowKey, key_eq, ProcNetEntry}
use stb_e_bpf.FlowTracker.{
  FlowRecord, FlowTracker, zero_record, find_record, flow_tracker_create, flow_tracker_cleanup,
  find_active,
}
use stb_e_bpf.FlowTracker.View.{view}
use stb_e_bpf.FlowTracker.Accounting.{
  Packet, update_packets, bytes_of, packets_of, update_packets-counts,
}
use stb_e_bpf.FlowTracker.Invariant.{IsValid, count_active, count_key}
use stb_e_bpf.FlowTracker.Cleanup.{survivor, cleanup-drops_stale}
use stb_e_bpf.FlowTracker.Runs.{
  Op, segment, created, run, run-created-IsValid, single, flush, cleanup,
}
use stb_e_bpf.FlowTracker.Ledger.{enter, credit, note, note_all, balance}
use stb_e_bpf.FlowTracker.Ledger.Runs.{counted, run-Ledger}
use stb_e_bpf.FlowTracker.Retransmit.{
  AckTable, check_segment, check_pure_ack, flow_tracker_check_tcp_retransmit, check_segment,
  check_pure_ack,
}
use stb_e_bpf.FlowTracker.Retransmit.Sequence.{
  IsPlainData, behind, after_data, check-data, deliver, deliver_in_order,
}

abbrev web : FlowKey
web = record {
  src_ip = 0x0A00_0001;
  dst_ip = 0x0A00_0002;
  src_port = 40000;
  dst_port = 80;
  protocol = 6;
  ip_version = 4;
}

abbrev dns : FlowKey
dns = record {
  src_ip = 0x0A00_0001;
  dst_ip = 0x0A00_0003;
  src_port = 40001;
  dst_port = 53;
  protocol = 17;
  ip_version = 4;
}

abbrev probe : List ℕ
probe = codes "stb-1"

-- A record of `web` whose next byte wraps the sequence number.
abbrev web_record : FlowRecord
web_record = record zero_record {
  key = web;
  active = true;
  value = record (zero_record.value) {
    bytes = 100;
    packets = 1;
    last_seen_ns = 5;
    seq_expected = 0xFFFF_FFF0;
  };
}

abbrev tracker : FlowTracker
tracker = record {
  records = web_record ∷ zero_record ∷ [];
  max_flows = 2;
  events = [];
  max_events = 4;
  active_count = 1;
}

abbrev acks : AckTable
acks = record { last_ack_per_flow = 7 ∷ 9 ∷ []; flow_idx = 4096 }

abbrev entry : ProcNetEntry
entry = record {
  local_ip = 0x0A00_0001;
  local_port = 40001;
  remote_ip = 0x0A00_0003;
  remote_port = 53;
  state = 1;
  protocol = 17;
  ip_version = 0;
  rx_queue = 10;
  tx_queue = 20;
  uid = 0;
  inode = 0;
}

abbrev first_packet : Packet
first_packet = record { key = web; bytes = 60; ts = 6; now = 6 }

abbrev second_packet : Packet
second_packet = record { key = dns; bytes = 70; ts = 7; now = 7 }

web_in_view : view web tracker.records ≡ some web_record
unfolding view key_eq
web_in_view = refl

distinct_keys : (k : FlowKey) → count_key k tracker.records ≤ 1
unfolding count_key key_eq
distinct_keys k = ground arith

tracker-IsValid : IsValid tracker
unfolding count_active
tracker-IsValid = record {
  width = refl;
  counted = refl;
  sized = refl;
  bounded = omega arith;
  distinct = distinct_keys;
}

found_first : (find_record tracker web 8).0 ≡ some 0
unfolding find_record find_active key_eq
found_first = refl

reported : (flow_tracker_check_tcp_retransmit tracker acks web 9 0 0x10 8).found ≡ true
unfolding flow_tracker_check_tcp_retransmit find_record find_active key_eq check_segment
    check_pure_ack has_bits
reported = refl

no_syn_fin : IsPlainData 0x10
unfolding has_bits
no_syn_fin = (refl, refl)

has_ack : has_bits 0x10 0x10 ≡ true
unfolding has_bits
has_ack = refl

run-created-IsValid_example :
    (flow_tracker_create true 1 ≡ some (created 1))
    × IsValid
        (run
          (created 1, acks)
          (single web 60 probe 6 6 ∷ single dns 70 probe 7 7 ∷ flush ∷ cleanup 1 9 ∷ [])).0
run-created-IsValid_example =
    run-created-IsValid 1 acks
      (single web 60 probe 6 6 ∷ single dns 70 probe 7 7 ∷ flush ∷ cleanup 1 9 ∷ [])

update_packets-counts_example :
    (r' : FlowRecord) × (view web
        (update_packets probe tracker (first_packet ∷ second_packet ∷ [])).records
      ≡ some r')
    × (r'.value.bytes ≡ (100 + bytes_of web (first_packet ∷ second_packet ∷ [])) % u64_mod)
    × (r'.value.packets ≡ (1 + packets_of web (first_packet ∷ second_packet ∷ [])) % u64_mod)
update_packets-counts_example =
    update_packets-counts probe web (first_packet ∷ second_packet ∷ []) tracker web_record
      web_in_view (omega arith) (omega arith)

cleanup-drops_stale_example :
    (view web (flow_tracker_cleanup tracker 10 100).records
      ≡ survivor 100 10 (view web tracker.records))
    × IsValid (flow_tracker_cleanup tracker 10 100)
    × ((flow_tracker_cleanup tracker 10 100).events ≡ [])
cleanup-drops_stale_example = cleanup-drops_stale tracker 10 100 web tracker-IsValid

check-data_example :
    let c = flow_tracker_check_tcp_retransmit tracker acks web 0xFFFF_FFF0 0x20 0x10 8 in
    (c.is_retransmit ≡ behind 0xFFFF_FFF0 web_record)
    × (view web c.tracker.records ≡ (
        if key_eq web web
        then some (after_data 0xFFFF_FFF0 0x20 web_record)
        else view web tracker.records))
check-data_example =
    check-data tracker acks web web 0xFFFF_FFF0 0x20 0x10 8 web_record web_in_view no_syn_fin
      (omega arith)

-- The segment behind the wrap: it follows in the sequence, and the code takes it for an old one.
deliver_in_order_example :
    let (reported, ft') = deliver tracker acks web 0x10 8 0xFFFF_FFF0 (0x10 ∷ 5 ∷ []) in
    (reported ≡ false)
    × ((r' : FlowRecord) × (view web ft'.records ≡ some r')
        × (r'.value.seq_expected ≡ (0xFFFF_FFF0 + 0x15) % u32_mod))
deliver_in_order_example =
    deliver_in_order tracker acks web 0x10 8 0xFFFF_FFF0 (0x10 ∷ 5 ∷ []) web_record web_in_view
      no_syn_fin (omega arith, (omega arith, tt)) (omega arith) refl

-- Two slots, three keys: the third gets no account.
abbrev captured : List Op
captured =
    single web 60 probe 6 6
    ∷ segment dns 9 0 16 7
    ∷ flush
    ∷ single (record web { dst_port = 443 }) 80 probe 8 8
    ∷ single web 40 probe 9 9
    ∷ []

run-Ledger_example :
    counted (view web (run (created 2, acks) captured).0.records)
    ≡ balance web (note_all 2 captured [])
run-Ledger_example = run-Ledger 2 acks captured web (tt, (tt, (tt, (tt, (tt, tt)))))

captured_test : balance web (note_all 2 captured []) ≡ some (100, 2)
unfolding balance note_all note credit enter key_eq
captured_test = refl
