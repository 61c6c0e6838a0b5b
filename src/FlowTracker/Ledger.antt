-- ===== src/FlowTracker/Ledger.antt =====
-- What the tracker of src/flow_tracker.c promises while frames are captured and nothing is polled
-- or cleaned: a ledger of the first `room` keys, each with its bytes and packets.
pub mod Refinement
pub mod Runs
use stb_e_bpf.Base.{
  ℕ, zero, suc, ◌+◌, ◌-◌, ◌≡◌, Bool, true, false, Option, none, some, List, [], ◌∷◌, if◌then◌else◌,
  length, add64,
}
use stb_e_bpf.Flow.{FlowKey, key_eq}
use stb_e_bpf.FlowTracker.{FlowRecord, zero_record}
use stb_e_bpf.FlowTracker.Runs.{Op, single, poll, segment, flush, cleanup}

-- An account: a key, and what has been counted for it.
pub record Account : Type 0 where
  pub key : FlowKey
  pub bytes : ℕ
  pub packets : ℕ

-- A key without an account gets one, as long as there is room.
unfoldable pub enter : ℕ → FlowKey → List Account → List Account
enter zero key [] = []
enter (suc room) key [] = record { key = key; bytes = 0; packets = 0 } ∷ []
enter room key (a ∷ as') = if key_eq a.key key then a ∷ as' else a ∷ enter (room - 1) key as'

-- One packet of so many bytes goes to the account of its key, if it has one.
unfoldable pub credit : FlowKey → ℕ → List Account → List Account
credit key n [] = []
credit key n (a ∷ as') =
    if key_eq a.key key
    then record a { bytes = add64 a.bytes n; packets = add64 a.packets 1 } ∷ as'
    else a ∷ credit key n as'

-- The calls made while frames are captured.
abbrev pub IsCapture : Op → Type 0
IsCapture (single key bytes probe_id ts now) = Unit
IsCapture (poll entries ts clock) = ⊥
IsCapture (segment key seq_num pkt_len flags now) = Unit
IsCapture flush = Unit
IsCapture (cleanup max_age_ns ts) = ⊥

-- What a call does to the ledger.
unfoldable pub note : ℕ → Op → List Account → List Account
note room (single key bytes probe_id ts now) as' = credit key bytes (enter room key as')
note room (segment key seq_num pkt_len flags now) as' = enter room key as'
note room op as' = as'

unfoldable pub note_all : ℕ → List Op → List Account → List Account
note_all room [] as' = as'
note_all room (op ∷ ops) as' = note_all room ops (note room op as')

-- What the ledger says of a key.
unfoldable pub balance : FlowKey → List Account → Option (ℕ × ℕ)
balance key [] = none
balance key (a ∷ as') = if key_eq a.key key then some (a.bytes, a.packets) else balance key as'
