-- ===== src/Serializer/Checks.antt =====
-- The serializer on concrete buffers.
use stb_e_bpf.Base.{
  refl, ℕ, ◌≤◌, ◌<◌, ◌≡◌, ◌↔◌, none, List, [], ◌∷◌, arith, length, codes, ◌+◌, replicate, strncpy,
  decimal,
}
use stb_e_bpf.Flow.{FlowEvent, zero_event, ip_to_str}
use stb_e_bpf.Serializer.Text.{array_text, serialize_batch-array}
use stb_e_bpf.Serializer.{serialize_batch, flow_json, put_flows}
use stb_e_bpf.Serializer.Bounds.{flows_out, serialize_batch-flows}

abbrev event : FlowEvent
event = zero_event

abbrev probe_id : List ℕ
probe_id = codes "stb-1"

abbrev event_size : ℕ
event_size = length (flow_json event probe_id)

serialize_batch-flows_example :
    let out = serialize_batch (event ∷ event ∷ []) none probe_id 400 in
    (length out.bytes ≡ out.written)
    × (out.written ≤ 400)
    × ((out.extent ≤ 400) ↔ (out.written < 400))
    × (out.extent ≤ 401)
serialize_batch-flows_example =
    serialize_batch-flows (event ∷ event ∷ []) probe_id 400 (omega arith)

event_text : 3 < event_size + 2
unfolding flow_json codes ip_to_str strncpy decimal
event_text = ground arith

-- The text of a metric.
abbrev metric : List ℕ
metric = replicate 100 b'x'

empty_batch : (flows_out [] probe_id 50).1.written ≡ 1
unfolding put_flows
empty_batch = refl

serialize_batch-array_example :
    let texts = flow_json event probe_id ∷ flow_json event probe_id ∷ [] in
    let out = serialize_batch (event ∷ event ∷ []) none probe_id (length (array_text texts) + 2) in
    (out.bytes ≡ array_text texts)
    × (out.written ≡ length out.bytes)
    × (out.extent ≤ length (array_text texts) + 2)
serialize_batch-array_example =
    serialize_batch-array (event ∷ event ∷ []) probe_id
      (length (array_text (flow_json event probe_id ∷ flow_json event probe_id ∷ [])) + 2)
      (omega arith)
