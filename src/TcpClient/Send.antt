-- ===== src/TcpClient/Send.antt =====
-- `tcp_client_send` and the functions that call it.
use stb_e_bpf.Base.{
  zero, suc, drop, ℕ, ◌+◌, true, false, List, [], ◌∷◌, ◌++◌, leb, if◌then◌else◌, length, codes,
  decimal, Option, ◌||◌, some, not, ◌==◌, none, Bool, add64, ◌>>=◌, drop, suc, ◌-◌, ltb, take,
}
use stb_e_bpf.TcpClient.{
  TcpClient, World, Link, Flush, SendReply, accepted, interrupted, lost, again, broken, alive,
  closed, disconnect_over, reconnect_over,
}

-- The request that wraps the data. The text has no zero byte, at which "%.*s" would stop: those
-- that the program sends are made by `snprintf`.
unfoldable pub http_request : List ℕ → List ℕ → List ℕ
http_request server_ip text =
    codes "POST /api/v1/ingest HTTP/1.1\r\nHost: "
    ++ (server_ip
        ++ (codes "\r\nContent-Type: application/json\r\nContent-Length: "
            ++ (decimal (length text) ++ (codes "\r\nConnection: keep-alive\r\n\r\n" ++ text))))

-- How the loop around `send` ends: all bytes are out, the connection is lost, or the function
-- returns early.
pub data SendEnd : Type 0 where
  complete : ℕ → SendEnd
  dropped : ℕ → SendEnd
  partial : ℕ → SendEnd

-- The loop, with the answers that are left. With none left, `send` fails.
unfoldable pub send_loop : ℕ → ℕ → List SendReply → SendEnd × List SendReply
send_loop http_len total [] = (if leb http_len total then complete total else partial total, [])
send_loop http_len total (reply ∷ rest) =
    let go = λ (n : ℕ). send_loop http_len n rest in
    if leb http_len total then (complete total, reply ∷ rest) else elim reply [
      | accepted n ↦ go (total + n)
      | interrupted ↦ go total
      | lost ↦ (dropped total, rest)
      | again true ↦ go total
      | again false ↦ (partial total, rest)
      | broken ↦ (partial total, rest)
    ]

-- What the system takes of the request in this loop: a `send` offers the bytes behind the `total`
-- that are out.
unfoldable pub taken : List ℕ → ℕ → List SendReply → List ℕ
taken request total [] = []
taken request total (reply ∷ rest) =
    let more = λ (n : ℕ). taken request n rest in
    if leb (length request) total then [] else elim reply [
      | accepted n ↦ take n (drop total request) ++ more (total + n)
      | interrupted ↦ more total
      | lost ↦ []
      | again true ↦ more total
      | again false ↦ []
      | broken ↦ []
    ]

-- `tcp_client_send` up to its first use of the socket: a client that is not connected tries to
-- reconnect if it may.
unfoldable pub ready_over : Flush → Link → Option Link
ready_over flush (c, w) =
    if c.is_connected || not c.auto_reconnect
    then some (c, w)
    else (reconnect_over flush (c, w) >>= λ r. some r.1)

-- What follows the loop. The result is `none` for -1.
unfoldable pub finish_over : Flush → ℕ → Link → SendEnd → Option (Option ℕ × Link)
finish_over flush http_len (c, w) (complete total) =
    some (some total, (record c { bytes_sent = add64 c.bytes_sent total }, w))
finish_over flush http_len (c, w) (dropped total) =
    let c1 : TcpClient = record c {
      is_connected = false;
      bytes_lost = add64 c.bytes_lost (http_len - total);
    } in
    if c1.auto_reconnect
    then (reconnect_over flush (c1, w) >>= λ r. some (none, r.1))
    else some (none, (c1, w))
finish_over flush http_len (c, w) (partial total) =
    some ((if ltb 0 total then some total else none), (c, w))

-- The part from the building of the request on.
unfoldable pub transmit_over : Flush → Link → List ℕ → Option (Option ℕ × Link)
transmit_over flush (c, w) text =
    let request = http_request c.server_ip text in
    let http_len = length request in
    if not c.is_connected || leb 65536 http_len
    then some (none, (c, w))
    else let (end, rest) = send_loop http_len 0 w.sends in
      finish_over flush http_len
        (c, record w { sends = rest; wire = w.wire ++ taken request 0 w.sends }) end

-- `tcp_client_send`.
unfoldable pub send_over : Flush → Link → List ℕ → Option (Option ℕ × Link)
send_over flush l text =
    if length text == 0
    then some (none, l)
    else (ready_over flush l >>= λ l'. transmit_over flush l' text)

-- The buffer after a flush that sent `n` bytes; a failed one leaves it.
abbrev pub consume : Option ℕ × Link → Option ℕ × Link
consume (none, l) = (none, l)
consume (some n, (c, w)) = (some n, (record c { send_buffer = drop n c.send_buffer }, w))

-- `tcp_client_flush`.
unfoldable pub flush_over : Flush → Link → Option (Option ℕ × Link)
flush_over flush (c, w) =
    if length c.send_buffer == 0
    then some (some 0, (c, w))
    else (send_over flush (c, w) c.send_buffer >>= λ r. some (consume r))

-- The functions call each other in a cycle, through the flush in `tcp_client_disconnect`: this is
-- how deep the calls may go.
unfoldable pub flush_at : ℕ → Flush
flush_at zero l = none
flush_at (suc depth) l = flush_over (flush_at depth) l >>= λ r. some r.1

unfoldable pub tcp_client_disconnect : ℕ → Link → Option Link
unfolding flush_at
tcp_client_disconnect depth = disconnect_over (flush_at depth)

unfoldable pub tcp_client_reconnect : ℕ → Link → Option (Bool × Link)
unfolding flush_at
tcp_client_reconnect depth = reconnect_over (flush_at depth)

unfoldable pub tcp_client_send : ℕ → Link → List ℕ → Option (Option ℕ × Link)
unfolding flush_at
tcp_client_send depth = send_over (flush_at depth)

unfoldable pub tcp_client_flush : ℕ → Link → Option (Option ℕ × Link)
unfolding flush_at
tcp_client_flush depth = flush_over (flush_at depth)

-- `tcp_client_is_connected`; a peek that is not answered finds the connection alive.
unfoldable pub tcp_client_is_connected : Link → Bool × Link
tcp_client_is_connected (c, w) = elim c.sock_fd [
  | none ↦ (false, (c, w))
  | some fd ↦ if not c.is_connected then (false, (c, w)) else elim w.peeks [
    | [] ↦ (true, (c, w))
    | p ∷ rest ↦ elim p [
      | alive ↦ (true, (c, record w { peeks = rest }))
      | closed ↦ (false, (record c { is_connected = false }, record w { peeks = rest }))
    ]
  ]
]

-- `tcp_client_send_line`, of a string.
unfoldable pub tcp_client_send_line : ℕ → Link → List ℕ → Option (Option ℕ × Link)
unfolding tcp_client_send
tcp_client_send_line depth l line = tcp_client_send depth l line

-- `tcp_client_cleanup`: what the system is left with.
unfoldable pub tcp_client_cleanup : ℕ → Link → Option World
unfolding tcp_client_disconnect
tcp_client_cleanup depth l = tcp_client_disconnect depth l >>= λ l'. some l'.1

-- `tcp_client_get_stats`: bytes sent and lost, connections and reconnections.
unfoldable pub tcp_client_get_stats : TcpClient → ℕ × ℕ × ℕ × ℕ
tcp_client_get_stats c = (c.bytes_sent, c.bytes_lost, c.connect_count, c.reconnect_count)
