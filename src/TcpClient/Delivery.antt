-- ===== src/TcpClient/Delivery.antt =====
-- What `tcp_client_send` delivers and what it counts.
use stb_e_bpf.Base.{
  ℕ, ◌+◌, ◌-◌, ◌≤◌, ◌<◌, ◌≡◌, true, false, Option, none, some, List, [], ◌∷◌, arith, ltb,
  if◌then◌else◌, length, length-append, add64, ◌++◌,
}
use stb_e_bpf.TcpClient.{
  TcpClient, World, Link, Flush, SendReply, accepted, interrupted, lost, again, broken,
}
use stb_e_bpf.TcpClient.Send.{
  http_request, SendEnd, complete, dropped, partial, send_loop, taken, ready_over, finish_over,
  transmit_over, send_over,
}
use stb_e_bpf.TcpClient.Descriptors.{
  IsValid, SameBytes, Yields, Settles, Settles→Yields, reconnect_over-Reconnected,
}

-- The answers are those of a system that takes no more bytes than it is offered.
abbrev pub Honest : ℕ → ℕ → List SendReply → Type 0
Honest http_len total [] = total ≤ http_len
Honest http_len total (accepted n ∷ rest) =
    (total + n ≤ http_len) × Honest http_len (total + n) rest
Honest http_len total (interrupted ∷ rest) = Honest http_len total rest
Honest http_len total (lost ∷ rest) = total ≤ http_len
Honest http_len total (again true ∷ rest) = Honest http_len total rest
Honest http_len total (again false ∷ rest) = total ≤ http_len
Honest http_len total (broken ∷ rest) = total ≤ http_len

-- What the loop's end says of the bytes that are out.
abbrev pub Ends : ℕ → SendEnd → Type 0
Ends http_len (complete t) = t ≡ http_len
Ends http_len (dropped t) = t < http_len
Ends http_len (partial t) = t < http_len

send_loop-Ends :
    (http_len total : ℕ) (replies : List SendReply)
    → total ≤ http_len
    → Honest http_len total replies
    → Ends http_len (send_loop http_len total replies).0
unfolding send_loop
send_loop-Ends http_len total [] b h = ground arith
send_loop-Ends http_len total (accepted n ∷ rest) b h =
    ground (arith, send_loop-Ends http_len (total + n) rest h.0 h.1)
send_loop-Ends http_len total (interrupted ∷ rest) b h =
    ground (arith, send_loop-Ends http_len total rest b h)
send_loop-Ends http_len total (lost ∷ rest) b h = ground arith
send_loop-Ends http_len total (again true ∷ rest) b h =
    ground (arith, send_loop-Ends http_len total rest b h)
send_loop-Ends http_len total (again false ∷ rest) b h = ground arith
send_loop-Ends http_len total (broken ∷ rest) b h = ground arith

-- The three ways in which a send ends, with its result and the client that it leaves.
abbrev pub Delivered : Link → ℕ → SendEnd → Option ℕ × Link → Type 0
Delivered l http_len (complete t) (ret, l') =
    (t ≡ http_len)
    × (ret ≡ some http_len)
    × (l'.0.is_connected ≡ true)
    × (l'.0.bytes_sent ≡ add64 l.0.bytes_sent http_len)
    × (l'.0.bytes_lost ≡ l.0.bytes_lost)
Delivered l http_len (dropped t) (ret, l') =
    (t < http_len)
    × (ret ≡ none)
    × (l'.0.bytes_sent ≡ l.0.bytes_sent)
    × (l'.0.bytes_lost ≡ add64 l.0.bytes_lost (http_len - t))
Delivered l http_len (partial t) (ret, l') =
    (t < http_len)
    × (ret ≡ (if ltb 0 t then some t else none))
    × (l'.0.is_connected ≡ true)
    × SameBytes l l'

finish-Delivered :
    (flush : Flush) (c : TcpClient) (w : World) (http_len : ℕ) (end : SendEnd)
    → IsValid (c, w)
    → c.is_connected ≡ true
    → Ends http_len end
    → Settles
        (λ r. IsValid r.1 × Delivered (c, w) http_len end r)
        (finish_over flush http_len (c, w) end)
unfolding finish_over
finish-Delivered flush c w http_len (complete t) v up e = ground arith
finish-Delivered flush c w http_len (dropped t) v up e =
    let c1 : TcpClient = record c {
      is_connected = false;
      bytes_lost = add64 c.bytes_lost (http_len - t);
    } in
    let (r, back, kept) = reconnect_over-Reconnected flush (c1, w) (ground arith) in
    let v1 = kept.valid in ground arith
finish-Delivered flush c w http_len (partial t) v up e = ground arith

-- How the loop ends for this client, text and world.
abbrev pub end_of : Link → List ℕ → SendEnd
end_of (c, w) text = (send_loop (length (http_request c.server_ip text)) 0 w.sends).0

pub send-Delivered :
    (flush : Flush) (l : Link) (text : List ℕ)
    → IsValid l
    → l.0.is_connected ≡ true
    → 0 < length text
    → length (http_request l.0.server_ip text) < 65536
    → Honest (length (http_request l.0.server_ip text)) 0 l.1.sends
    → Yields
        (λ r.
          IsValid r.1 × Delivered l (length (http_request l.0.server_ip text)) (end_of l text) r)
        (send_over flush l text)
unfolding send_over ready_over transmit_over
send-Delivered flush (c, w) text v up some' small honest =
    let n = length (http_request c.server_ip text) in
    let ends = send_loop-Ends n 0 w.sends (omega arith) honest in
    let w' : World = record w {
      sends = (send_loop n 0 w.sends).1;
      wire = w.wire ++ taken (http_request c.server_ip text) 0 w.sends;
    } in
    let done = finish-Delivered flush c w' n (send_loop n 0 w.sends).0 (ground arith) up ends in
    Settles→Yields _ _ (ground arith)

pub length-http_request : (ip text : List ℕ) → length text ≤ length (http_request ip text)
unfolding http_request
length-http_request ip text = simp length-append (omega arith)

-- A text of 65536 bytes or more is never sent: a connected client returns -1 and is as before.
pub send-too_long :
    (flush : Flush) (l : Link) (text : List ℕ)
    → l.0.is_connected ≡ true
    → 65536 ≤ length text
    → send_over flush l text ≡ some (none, l)
unfolding send_over ready_over transmit_over
send-too_long flush (c, w) text up long = ground (arith, length-http_request c.server_ip text)
