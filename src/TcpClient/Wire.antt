-- ===== src/TcpClient/Wire.antt =====
-- What a send of src/tcp_client.c puts on the wire.
use stb_e_bpf.Base.{
  ℕ, zero, suc, ◌+◌, ◌≤◌, ◌<◌, ◌≡◌, refl, ap, ◌∙◌, true, false, Option, some, List, [], ◌∷◌, ◌++◌,
  arith, length, take, drop,
}
use stb_e_bpf.TcpClient.{Link, Flush, SendReply, accepted, interrupted, lost, again, broken}
use stb_e_bpf.TcpClient.Send.{
  http_request, complete, send_loop, taken, ready_over, finish_over, transmit_over, send_over,
}
use stb_e_bpf.TcpClient.Delivery.{Honest, end_of}

take-drop : {A : Type 0} → (n : ℕ) (xs : List A) → take n xs ++ drop n xs ≡ xs
take-drop zero xs = refl
take-drop (suc n) [] = refl
take-drop (suc n) (x ∷ xs) = ap (λ t. x ∷ t) (take-drop n xs)

drop-drop : {A : Type 0} → (t n : ℕ) (xs : List A) → drop (t + n) xs ≡ drop n (drop t xs)
drop-drop zero n xs = let e : 0 + n ≡ n = omega arith in rw e refl
drop-drop (suc t) zero [] = let e : suc t + 0 ≡ suc t = omega arith in rw e refl
drop-drop (suc t) (suc n) [] = let e : suc t + suc n ≡ suc (t + suc n) = omega arith in rw e refl
drop-drop (suc t) n (x ∷ xs) =
    let e : suc t + n ≡ suc (t + n) = omega arith in rw e (drop-drop t n xs)

drop-length : {A : Type 0} → (xs : List A) → drop (length xs) xs ≡ []
drop-length [] = refl
drop-length (x ∷ xs) = drop-length xs

-- One `send` and the rest of the request.
drop-sent :
    {A : Type 0} → (t n : ℕ) (xs : List A) → take n (drop t xs) ++ drop (t + n) xs ≡ drop t xs
drop-sent t n xs = ap (λ zs. take n (drop t xs) ++ zs) (drop-drop t n xs) ∙ take-drop n (drop t xs)

drop-end : (request : List ℕ) (total : ℕ) → total ≡ length request → drop total request ≡ []
drop-end request total e = ap (λ n. drop n request) e ∙ drop-length request

-- A loop that comes to its end has put the rest of the request on the wire.
pub taken-complete :
    (request : List ℕ) (total t : ℕ) (replies : List SendReply)
    → total ≤ length request
    → Honest (length request) total replies
    → (send_loop (length request) total replies).0 ≡ complete t
    → taken request total replies ≡ drop total request
unfolding send_loop taken
taken-complete request total t [] b h e = ground (arith, drop-end request total)
taken-complete request total t (accepted n ∷ rest) b h e = ground (
  arith,
  taken-complete request (total + n) t rest h.0 h.1,
  drop-end request total,
  drop-sent total n request,
)
taken-complete request total t (interrupted ∷ rest) b h e =
    ground (arith, taken-complete request total t rest b h, drop-end request total)
taken-complete request total t (lost ∷ rest) b h e = ground (arith, drop-end request total)
taken-complete request total t (again true ∷ rest) b h e =
    ground (arith, taken-complete request total t rest b h, drop-end request total)
taken-complete request total t (again false ∷ rest) b h e = ground (arith, drop-end request total)
taken-complete request total t (broken ∷ rest) b h e = ground (arith, drop-end request total)

-- A connected client whose send comes to its end has put the whole request on the wire.
pub send-wire :
    (flush : Flush) (l : Link) (text : List ℕ) (t : ℕ) (r : Option ℕ × Link)
    → l.0.is_connected ≡ true
    → 0 < length text
    → length (http_request l.0.server_ip text) < 65536
    → Honest (length (http_request l.0.server_ip text)) 0 l.1.sends
    → end_of l text ≡ complete t
    → send_over flush l text ≡ some r
    → r.1.1.wire ≡ l.1.wire ++ http_request l.0.server_ip text
unfolding send_over ready_over transmit_over finish_over
send-wire flush (c, w) text t r up some_text small honest ends sent =
    let all =
      taken-complete (http_request c.server_ip text) 0 t w.sends (omega arith) honest ends in
    ground arith
