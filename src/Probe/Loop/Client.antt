-- ===== src/Probe/Loop/Client.antt =====
-- What a round does with the client, for any answers of the system.
use stb_e_bpf.Base.{
  ◌-◌, ℕ, ◌≡◌, refl, true, false, not, ◌||◌, inl, inr, Bool-cases, Option, List, [], ◌∷◌, arith,
  ◌==◌, length, add64, ◌++◌,
}
use stb_e_bpf.TcpClient.{TcpClient, World, Link, Flush, Peek, alive, closed}
use stb_e_bpf.TcpClient.Send.{
  http_request, SendEnd, complete, dropped, partial, send_loop, taken, ready_over, finish_over,
  transmit_over, send_over, flush_at, tcp_client_is_connected, tcp_client_reconnect,
  tcp_client_send,
}
use stb_e_bpf.TcpClient.Descriptors.{
  IsValid, Yields, Settles, Settles→Yields, reconnect_over-Reconnected,
}
use stb_e_bpf.Probe.Loop.{second_try, hand_over}

pub is_connected-IsValid :
    (l : Link)
    → IsValid l
    → IsValid (tcp_client_is_connected l).1
      × ((not (tcp_client_is_connected l).0 || (tcp_client_is_connected l).1.0.is_connected) ≡ true)
unfolding tcp_client_is_connected
is_connected-IsValid (c, w) v = go w.peeks
  where
    go :
        (ps : List Peek)
        → IsValid (tcp_client_is_connected (c, record w { peeks = ps })).1
          × ((not (tcp_client_is_connected (c, record w { peeks = ps })).0
                || (tcp_client_is_connected (c, record w { peeks = ps })).1.0.is_connected)
              ≡ true)
    go [] = ground arith
    go (alive ∷ ps) = ground arith
    go (closed ∷ ps) = ground arith

finish-IsValid :
    (flush : Flush) (http_len : ℕ) (c : TcpClient) (w : World) (end : SendEnd)
    → IsValid (c, w)
    → Settles (λ r. IsValid r.1) (finish_over flush http_len (c, w) end)
unfolding finish_over
finish-IsValid flush http_len c w (complete t) v = ground arith
finish-IsValid flush http_len c w (partial t) v = ground arith
finish-IsValid flush http_len c w (dropped t) v =
    let c1 : TcpClient = record c {
      is_connected = false;
      bytes_lost = add64 c.bytes_lost (http_len - t);
    } in
    let (r, e, k) = reconnect_over-Reconnected flush (c1, w) (ground arith) in
    let v1 = k.valid in ground arith

transmit-IsValid :
    (flush : Flush) (l : Link) (text : List ℕ)
    → IsValid l
    → Settles (λ r. IsValid r.1) (transmit_over flush l text)
unfolding transmit_over
transmit-IsValid flush (c, w) text v =
    let n = length (http_request c.server_ip text) in
    let w' : World = record w {
      sends = (send_loop n 0 w.sends).1;
      wire = w.wire ++ taken (http_request c.server_ip text) 0 w.sends;
    } in
    let f = finish-IsValid flush n c w' (send_loop n 0 w.sends).0 (ground arith) in ground arith

pub send-IsValid :
    (flush : Flush) (l : Link) (text : List ℕ)
    → IsValid l
    → Settles (λ r. IsValid r.1) (send_over flush l text)
unfolding send_over ready_over
send-IsValid flush (c, w) text v = elim (Bool-cases (length text == 0)) [
  | inl empty ↦ rw empty v
  | inr some_text ↦ elim (Bool-cases (c.is_connected || not c.auto_reconnect)) [
    | inl up ↦ rw (some_text, up) (transmit-IsValid flush (c, w) text v)
    | inr down ↦
        let (r, e, k) = reconnect_over-Reconnected flush (c, w) v in
        rw (some_text, down) (rw e (transmit-IsValid flush r.1 text k.valid))
  ]
]

pub second_try-IsValid :
    (depth : ℕ) (link : Link) → IsValid link → Yields (λ l. IsValid l) (second_try depth link)
unfolding second_try tcp_client_reconnect
second_try-IsValid depth link v =
    let (v1, up1) = is_connected-IsValid link v in
    elim (Bool-cases (tcp_client_is_connected link).0) [
      | inl up ↦ ((tcp_client_is_connected link).1, rw up refl, v1)
      | inr down ↦
          let (r, e, k) =
            reconnect_over-Reconnected (flush_at depth) (tcp_client_is_connected link).1 v1 in
          (r.1, rw down (rw e refl), k.valid)
    ]

-- A round's use of a valid client returns, and leaves it valid.
pub hand_over-IsValid :
    (depth : ℕ) (link : Link) (json : List ℕ)
    → IsValid link
    → Yields (λ h. IsValid h.1) (hand_over depth link json)
unfolding hand_over tcp_client_send
hand_over-IsValid depth link json v =
    let (l2, e, v2) = second_try-IsValid depth link v in
    let (v3, up3) = is_connected-IsValid l2 v2 in
    elim (Bool-cases (tcp_client_is_connected l2).0) [
      | inr down ↦ ((false, (tcp_client_is_connected l2).1), rw e (rw down refl), v3)
      | inl up ↦
          let (r, f, v4) =
            Settles→Yields {A = Option ℕ × Link} (λ r. IsValid r.1)
              (send_over (flush_at depth) (tcp_client_is_connected l2).1 json)
              (send-IsValid (flush_at depth) (tcp_client_is_connected l2).1 json v3) in
          ((true, r.1), rw e (rw up (rw f refl)), v4)
    ]
