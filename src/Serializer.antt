-- ===== src/Serializer.antt =====
-- src/serializer.c: the batch that is sent. The text of a host metric, which prints floating-point
-- numbers, is a parameter. The output buffer is the bytes below `written`; `extent` is one more
-- than the highest index that has been written, terminators included.
pub mod Bounds
pub mod Text
mod Checks
use stb_e_bpf.Base.{
  ℕ, zero, suc, ◌+◌, ◌-◌, ◌*◌, ◌/◌, ◌%◌, ◌^◌, ◌≤◌, ◌<◌, min, max, bit_and, bit_or, bit_xor, ◌≡◌,
  refl, sym, ap, ◌∙◌, ◌≢◌, ◌↔◌, ◌⊎◌, inl, inr, Bool, true, false, not, ◌&&◌, ◌||◌, Option, none,
  some, List, [], ◌∷◌, ◌++◌, map, arith, ltb, leb, ◌==◌, if◌then◌else◌, ==_iff, ltb→lt, Bool-cases,
  Option-cases, ◌>>=◌, length, get_elem?, get_or, set, modify, take, drop, replicate, length-append,
  length-set, length-modify, length-take, length-drop, length-replicate, slice, slice-some, All,
  add64, sub64, add32, has_bits, be16, be32, le16, le32, u32_mod, u64_mod, codes, strncpy,
  length-strncpy, decimal,
}
use stb_e_bpf.Flow.{FlowEvent, ip_to_str}

-- The text of `serialize_flow_event`'s format.
unfoldable pub flow_json : FlowEvent → List ℕ → List ℕ
flow_json event probe_id =
    codes "{\"timestamp\":"
    ++ (decimal event.timestamp_ns
        ++ (codes ",\"probe_id\":\""
            ++ (probe_id
                ++ (codes "\",\"category\":\""
                    ++ (event.category
                        ++ (codes "\",\"event_type\":\""
                            ++ (event.event_type
                                ++ (codes "\",\"src_ip\":\""
                                    ++ (ip_to_str event.src_ip 16
                                        ++ (codes "\",\"dst_ip\":\""
                                            ++ (ip_to_str event.dst_ip 16
                                                ++ (codes "\",\"src_port\":"
                                                    ++ (decimal event.src_port
                                                        ++ (codes ",\"dst_port\":"
                                                            ++ (decimal event.dst_port
                                                            ++ (codes ",\"protocol\":\""
                                                            ++ (event.protocol
                                                            ++ (codes "\",\"ip_version\":"
                                                            ++ (decimal event.ip_version
                                                            ++ (codes ",\"tcp_flags\":"
                                                            ++ (decimal event.tcp_flags
                                                            ++ (codes ",\"pkt_len\":"
                                                            ++ (decimal event.pkt_len
                                                            ++ (codes ",\"bytes\":"
                                                            ++ (decimal event.bytes
                                                            ++ (codes ",\"packets\":"
                                                            ++ (decimal event.packets
                                                            ++ (codes ",\"latency_us\":"
                                                            ++ (decimal event.latency_us
                                                            ++ (codes ",\"bandwidth_bps\":"
                                                            ++ (decimal event.bandwidth_bps
                                                            ++ (codes ",\"retransmits\":"
                                                            ++ (decimal event.retransmits
                                                            ++ (codes ",\"dup_acks\":"
                                                            ++ (decimal event.dup_acks
                                                            ++ (codes ",\"anomaly\":"
                                                            ++ (decimal event.anomaly
                                                            ++ (codes ",\"payload_type\":"
                                                            ++ (decimal event.payload_type
                                                            ++ (codes ",\"pid\":"
                                                            ++ (decimal event.pid
                                                            ++ (codes ",\"service\":\""
                                                            ++ (event.service
                                                            ++ (codes "\",\"details\":\""
                                                            ++ (event.details
                                                            ++ (codes "\",\"tags\":\""
                                                            ++ (event.tags ++ codes "\"}")))))))))))
                                                            ))))))))))))))))))))))))))))))))))))

-- The output buffer while it is filled.
pub record Output : Type 0 where
  pub bytes : List ℕ
  pub written : ℕ
  pub extent : ℕ

-- `output[written++] = c`.
unfoldable pub put_char : ℕ → Output → Output
put_char c out = record {
  bytes = out.bytes ++ (c ∷ []);
  written = out.written + 1;
  extent = max out.extent (out.written + 1);
}

-- `snprintf(output + written, output_size - written, …)` for a text: what it writes fits the size
-- that it is given, with the terminator. `written` is not moved.
unfoldable pub print_at : ℕ → List ℕ → Output → Output
print_at output_size text out = record out {
  extent = max out.extent (out.written + min (length text) (output_size - out.written - 1) + 1);
}

-- The separator of an item that is not the first.
abbrev pub comma : Bool → Output → Output
comma first out = if first then out else put_char b',' out

-- `written += ret`, for a text that has been printed in full.
abbrev pub take_in : List ℕ → Output → Output
take_in text out = record out { bytes = out.bytes ++ text; written = out.written + length text }

-- `written = output_size - 2`, for a text that was cut off.
abbrev pub cut_off : ℕ → List ℕ → Output → Output
cut_off output_size text out = record out {
  bytes = take (output_size - 2) (out.bytes ++ text);
  written = output_size - 2;
}

-- The loop over the events, with the flag `first`. Each event is given by its text.
unfoldable pub put_flows : ℕ → List (List ℕ) → Bool → Output → Bool × Output
put_flows output_size [] first out = (first, out)
put_flows output_size (text ∷ texts) first out =
    let out1 = comma first out in
    let out2 = print_at output_size text out1 in
    let rest = put_flows output_size texts false (take_in text out2) in
    if leb (output_size - 2) out.written
    then (first, out)
    else if leb (output_size - out1.written) (length text)
    then (first, cut_off output_size text out2)
    else rest

-- The metric, which is taken in however long it is.
unfoldable pub put_metric : ℕ → Option (List ℕ) → Bool → Output → Output
put_metric output_size none first out = out
put_metric output_size (some text) first out =
    if leb (output_size - 2) out.written
    then out
    else let out1 = comma first out in
      let out2 = print_at output_size text out1 in
      if length text == 0 then out2 else take_in text out2

-- The closing bracket and the terminator.
unfoldable pub close_batch : Output → Output
close_batch out =
    let out1 = put_char b']' out in record out1 { extent = max out1.extent (out1.written + 1) }

abbrev pub open_batch : Output
open_batch = record { bytes = b'[' ∷ []; written = 1; extent = 1 }

-- `serialize_batch`; the return value is the field `written`.
unfoldable pub serialize_batch : List FlowEvent → Option (List ℕ) → List ℕ → ℕ → Output
serialize_batch events metric probe_id output_size =
    let (first, out) =
      put_flows output_size (map (λ e. flow_json e probe_id) events) true open_batch in
    close_batch (put_metric output_size metric first out)
