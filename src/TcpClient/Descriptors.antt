-- ===== src/TcpClient/Descriptors.antt =====
-- The client owns exactly the socket that it names: none is leaked and none is closed twice.
use stb_e_bpf.Base.{
  ℕ, ◌+◌, ◌≤◌, ◌<◌, ◌≡◌, refl, Bool, true, false, not, ◌&&◌, ◌||◌, Option, none, some, List, [],
  ◌∷◌, arith, if◌then◌else◌, length,
}
use stb_e_bpf.TcpClient.{
  TcpClient, World, Link, Flush, ConnectReply, initial_delay_ms, max_delay_ms, max_retries,
  remove_fd, close_fd, connect_with, tcp_client_try_connect, tcp_client_connect, drop_socket,
  disconnect_over, retry, reconnect_over,
}
use stb_e_bpf.TcpClient.Backoff.{backoff_bounds}

abbrev pub fds_of : Option ℕ → List ℕ
fds_of none = []
fds_of (some fd) = fd ∷ []

abbrev pub is_closed : Option ℕ → Bool
is_closed none = true
is_closed (some fd) = false

pub record IsValid (l : Link) : Type 0 where
  pub owned : l.1.open_fds ≡ fds_of l.0.sock_fd
  pub live : (l.0.is_connected && is_closed l.0.sock_fd) ≡ false
  pub retries : l.0.reconnect_retries ≤ max_retries
  pub delay_min : initial_delay_ms ≤ l.0.reconnect_delay_ms
  pub delay_max : l.0.reconnect_delay_ms ≤ max_delay_ms
  pub unbuffered : l.0.send_buffer ≡ []

-- No socket, and no connection.
abbrev pub IsDown : Link → Type 0
IsDown l = (l.0.sock_fd ≡ none) × (l.0.is_connected ≡ false)

-- A call that returns, with what holds of its result.
abbrev pub Yields {ℓ} : {A : Type 0} → (A → Type ℓ) → Option A → Type ℓ
Yields {A = A} P m = (a : A) × (m ≡ some a) × P a

-- The byte counters are those of before.
abbrev pub SameBytes : Link → Link → Type 0
SameBytes l l' = (l'.0.bytes_sent ≡ l.0.bytes_sent) × (l'.0.bytes_lost ≡ l.0.bytes_lost)

-- What an attempt to connect leaves: it succeeds exactly if the client is connected then, and a
-- failure closes what it opened.
record Attempt (l : Link) (r : Bool × Link) : Type 0 where
  owned : r.1.1.open_fds ≡ fds_of r.1.0.sock_fd
  live : (r.1.0.is_connected && is_closed r.1.0.sock_fd) ≡ false
  success : r.0 ≡ r.1.0.is_connected
  failure : (r.0 || is_closed r.1.0.sock_fd) ≡ true
  retries : r.1.0.reconnect_retries ≡ l.0.reconnect_retries
  delay : r.1.0.reconnect_delay_ms ≡ l.0.reconnect_delay_ms
  buffer : r.1.0.send_buffer ≡ l.0.send_buffer
  bytes : SameBytes l r.1

connect_with-Attempt :
    (reply : ConnectReply) (c : TcpClient) (w : World)
    → IsDown (c, w)
    → w.open_fds ≡ []
    → Attempt (c, w) (connect_with reply (c, w))
unfolding connect_with close_fd remove_fd
connect_with-Attempt reply c w d o = ground arith

try_connect-Attempt :
    (c : TcpClient) (w : World)
    → IsDown (c, w)
    → w.open_fds ≡ []
    → Attempt (c, w) (tcp_client_try_connect (c, w))
unfolding tcp_client_try_connect
try_connect-Attempt c w d o = go w.connects
  where
    go :
        (rs : List ConnectReply)
        → Attempt (c, w) (tcp_client_try_connect (c, record w { connects = rs }))
    go [] = ground arith
    go (reply ∷ rest) =
        let a = connect_with-Attempt reply c (record w { connects = rest }) d o in ground arith

-- From a client that is valid and has no socket: connecting returns 0 exactly if the client is
-- connected afterwards; it then owns one open socket and its retries start afresh, and otherwise
-- it owns none.
pub connect-IsValid :
    (l : Link)
    → IsValid l
    → IsDown l
    → let (success, l') = tcp_client_connect l in
      IsValid l'
      × (success ≡ l'.0.is_connected)
      × (l'.0.reconnect_retries ≡ (if success then 0 else l.0.reconnect_retries))
      × (length l'.1.open_fds ≡ (if success then 1 else 0))
unfolding tcp_client_connect
connect-IsValid (c, w) v d = let a = try_connect-Attempt c w d (ground arith) in ground arith

connect-SameBytes : (l : Link) → IsValid l → IsDown l → SameBytes l (tcp_client_connect l).1
unfolding tcp_client_connect
connect-SameBytes (c, w) v d = let a = try_connect-Attempt c w d (ground arith) in ground arith

pub drop_socket-IsValid :
    (l : Link)
    → IsValid l
    → IsValid (drop_socket l)
      × IsDown (drop_socket l)
      × ((drop_socket l).1.open_fds ≡ [])
      × ((drop_socket l).0.reconnect_retries ≡ l.0.reconnect_retries)
      × SameBytes l (drop_socket l)
unfolding drop_socket close_fd remove_fd
drop_socket-IsValid (c, w) v = ground arith

pub disconnect_over-drops :
    (flush : Flush) (l : Link) → IsValid l → disconnect_over flush l ≡ some (drop_socket l)
unfolding disconnect_over
disconnect_over-drops flush (c, w) v = ground arith

retry-IsValid :
    (l : Link)
    → IsValid l
    → IsDown l
    → l.0.reconnect_retries < max_retries
    → IsValid (retry l).1
      × ((retry l).0 ≡ (retry l).1.0.is_connected)
      × ((retry l).1.0.reconnect_retries ≡ (if (retry l).0 then 0 else l.0.reconnect_retries + 1))
      × SameBytes l (retry l).1
unfolding retry
retry-IsValid l v d few =
    let (v', success, retries, fds) = connect-IsValid l v d in
    let same = connect-SameBytes l v d in
    let bounds = backoff_bounds (l.0.reconnect_retries + 1) (omega arith) in ground arith

-- What a reconnection leaves behind.
pub record Reconnected (l : Link) (r : Bool × Link) : Type 0 where
  pub valid : IsValid r.1
  pub success : (not r.0 || r.1.0.is_connected) ≡ true
  pub bytes : SameBytes l r.1

abbrev pub Settles : {A : Type 0} → (A → Type 0) → Option A → Type 0
Settles P none = ⊥
Settles P (some a) = P a

pub Settles→Yields : {A : Type 0} (P : A → Type 0) (m : Option A) → Settles P m → Yields P m
Settles→Yields P none h = elim h [ ]
Settles→Yields P (some a) h = (a, refl, h)

reconnect_over-Settles :
    (flush : Flush) (c : TcpClient) (w : World) (ts : List ℕ)
    → IsValid (c, w)
    → Settles (Reconnected (c, w)) (reconnect_over flush (c, record w { clock = ts }))
unfolding reconnect_over
reconnect_over-Settles flush c w [] v =
    let l : Link = (record c { last_reconnect_time = 0 }, record w { clock = [] }) in
    let vl : IsValid l = ground arith in
    let (vd, down, fds, kept, same) = drop_socket-IsValid l vl in
    ground (arith, disconnect_over-drops flush l vl, retry-IsValid (drop_socket l) vd down)
reconnect_over-Settles flush c w (now ∷ ts) v =
    let l : Link = (record c { last_reconnect_time = now }, record w { clock = ts }) in
    let vl : IsValid l = ground arith in
    let (vd, down, fds, kept, same) = drop_socket-IsValid l vl in
    ground (arith, disconnect_over-drops flush l vl, retry-IsValid (drop_socket l) vd down)

-- `tcp_client_reconnect` on a valid client always returns: the flush that it may lead to is never
-- made. The client stays valid, so that it owns exactly the socket that it names, its retries stay
-- at most ten and its delay within one to thirty seconds; 0 is returned only when connected, and
-- the byte counters stay.
pub reconnect_over-Reconnected :
    (flush : Flush) (l : Link) → IsValid l → Yields (Reconnected l) (reconnect_over flush l)
reconnect_over-Reconnected flush (c, w) v =
    Settles→Yields _ _ (reconnect_over-Settles flush c w w.clock v)
