-- ===== src/TcpClient.antt =====
-- src/tcp_client.c: the connection to the relay server. What the system answers to the calls is a
-- list of replies for each kind of call, in order; `open_fds` are the sockets that the client has
-- opened and not closed. `sock_fd` is `none` for -1, and a client is never null. The send buffer
-- is the list of its used bytes. Log output, and the response that a send drains, are left out.
pub mod Backoff
pub mod Send
pub mod Descriptors
pub mod GivesUp
pub mod Delivery
pub mod Wire
pub mod Cleanup
mod Checks
use stb_e_bpf.Base.{
  ℕ, zero, suc, ◌+◌, ◌-◌, ◌*◌, ◌/◌, ◌%◌, ◌^◌, ◌≤◌, ◌<◌, min, bit_and, bit_or, bit_xor, ◌≡◌, refl,
  sym, ap, ◌∙◌, ◌≢◌, ◌↔◌, ◌⊎◌, inl, inr, Bool, true, false, not, ◌&&◌, ◌||◌, Option, none, some,
  List, [], ◌∷◌, ◌++◌, map, arith, ltb, leb, ◌==◌, if◌then◌else◌, ==_iff, ltb→lt, Bool-cases,
  Option-cases, ◌>>=◌, length, get_elem?, get_or, set, modify, take, drop, replicate, length-append,
  length-set, length-modify, length-take, length-drop, length-replicate, slice, slice-some, All,
  add64, sub64, add32, has_bits, be16, be32, le16, le32, u32_mod, u64_mod, codes, strncpy,
  length-strncpy, decimal,
}

-- `RECONNECT_INITIAL_DELAY_MS`, `RECONNECT_MAX_DELAY_MS` and `RECONNECT_MAX_RETRIES`.
abbrev pub initial_delay_ms : ℕ
initial_delay_ms = 1000

abbrev pub max_delay_ms : ℕ
max_delay_ms = 30_000

abbrev pub max_retries : ℕ
max_retries = 10

-- `struct tcp_client`, without `is_nonblocking`, which nothing reads.
pub record TcpClient : Type 0 where
  pub sock_fd : Option ℕ
  pub server_ip : List ℕ
  pub server_port : ℕ
  pub is_connected : Bool
  pub reconnect_retries : ℕ
  pub reconnect_delay_ms : ℕ
  pub last_reconnect_time : ℕ
  pub auto_reconnect : Bool
  pub send_buffer : List ℕ
  pub bytes_sent : ℕ
  pub bytes_lost : ℕ
  pub connect_count : ℕ
  pub reconnect_count : ℕ

pub data ConnectResult : Type 0 where
  connected in_progress refused : ConnectResult

pub data SelectResult : Type 0 where
  failed timed_out ready : SelectResult

-- The answers to the calls of one `tcp_client_try_connect`.
pub record ConnectReply : Type 0 where
  pub socket : Option ℕ
  pub nonblocking : Bool
  pub address : Bool
  pub connect : ConnectResult
  pub select : SelectResult
  pub getsockopt : Bool
  pub so_error : ℕ

-- The answer to one `send`, with that of the `select` that follows EAGAIN.
pub data SendReply : Type 0 where
  accepted : ℕ → SendReply
  interrupted : SendReply
  lost : SendReply
  again : Bool → SendReply
  broken : SendReply

-- The answer to the `recv` that peeks.
pub data Peek : Type 0 where
  alive closed : Peek

-- `wire` is what `send` has taken so far, in order.
pub record World : Type 0 where
  pub open_fds : List ℕ
  pub wire : List ℕ
  pub connects : List ConnectReply
  pub sends : List SendReply
  pub clock : List ℕ
  pub peeks : List Peek

-- `close(fd)`.
unfoldable pub remove_fd : ℕ → List ℕ → List ℕ
remove_fd fd [] = []
remove_fd fd (g ∷ gs) = if g == fd then gs else g ∷ remove_fd fd gs

abbrev pub Link : Type 0
Link = TcpClient × World

unfoldable pub close_fd : ℕ → World → World
unfolding remove_fd
close_fd fd w = record w { open_fds = remove_fd fd w.open_fds }

-- `set_nonblocking`; the flags are O_RDWR and the like, its two `fcntl` answers are the argument.
abbrev pub set_nonblocking : Bool → Bool → Bool
set_nonblocking getfl setfl = getfl && setfl

-- `tcp_client_init`; `allocated` is the answer of `malloc`.
unfoldable pub tcp_client_init : List ℕ → ℕ → Bool → Bool → Option TcpClient
tcp_client_init server_ip server_port auto_reconnect allocated =
    if server_port == 0 || ltb 65535 server_port
    then none
    else if not allocated
    then none
    else some (record {
      sock_fd = none;
      server_ip = strncpy 16 server_ip;
      server_port = server_port;
      is_connected = false;
      reconnect_retries = 0;
      reconnect_delay_ms = initial_delay_ms;
      last_reconnect_time = 0;
      auto_reconnect = auto_reconnect;
      send_buffer = [];
      bytes_sent = 0;
      bytes_lost = 0;
      connect_count = 0;
      reconnect_count = 0;
    })

-- `calculate_backoff_delay`, for a retry count from 0 to 31; the shift is that of a 32-bit `int`,
-- whose values from 2^31 on are negative.
unfoldable pub calculate_backoff_delay : ℕ → ℕ → ℕ → ℕ
calculate_backoff_delay retry_count base_delay_ms max_delay =
    if retry_count == 0
    then base_delay_ms
    else let delay = base_delay_ms * 2 ^ retry_count % u32_mod in
      if ltb max_delay delay || delay == 0 || leb 0x8000_0000 delay then max_delay else delay

-- The way out of `tcp_client_try_connect` that closes the new socket.
abbrev pub give_up : ℕ → TcpClient → World → Bool × Link
give_up fd c w = (false, (record c { sock_fd = none }, close_fd fd w))

abbrev pub take_up : ℕ → TcpClient → World → Bool × Link
take_up fd c w = (true, (record c { sock_fd = some fd; is_connected = true }, w))

-- `tcp_client_try_connect`, for one answer of the system.
unfoldable pub connect_with : ConnectReply → Link → Bool × Link
connect_with reply (c, w) = elim reply.socket [
  | none ↦ (false, (record c { sock_fd = none }, w))
  | some fd ↦
      let opened : World = record w { open_fds = fd ∷ w.open_fds } in
      if not reply.nonblocking || not reply.address
      then give_up fd c opened
      else elim reply.connect [
        | connected ↦ take_up fd c opened
        | refused ↦ give_up fd c opened
        | in_progress ↦ elim reply.select [
          | failed ↦ give_up fd c opened
          | timed_out ↦ give_up fd c opened
          | ready ↦
              if reply.getsockopt && reply.so_error == 0
              then take_up fd c opened
              else give_up fd c opened
        ]
      ]
]

-- No answer left: `socket` fails.
unfoldable pub tcp_client_try_connect : Link → Bool × Link
tcp_client_try_connect (c, w) = elim w.connects [
  | [] ↦ (false, (record c { sock_fd = none }, w))
  | reply ∷ rest ↦ connect_with reply (c, record w { connects = rest })
]

-- `tcp_client_connect`: whether it returns 0.
unfoldable pub tcp_client_connect : Link → Bool × Link
tcp_client_connect (c, w) =
    if c.is_connected
    then (true, (c, w))
    else let (success, (c', w')) = tcp_client_try_connect (c, w) in
      if success
      then (
        true,
        (
          record c' {
            connect_count = add64 c'.connect_count 1;
            reconnect_retries = 0;
            reconnect_delay_ms = initial_delay_ms;
          },
          w',
        ),
      )
      else (false, (c', w'))

-- The next reading of the clock, in milliseconds.
abbrev pub tick : World → ℕ × World
tick w = elim w.clock [ [] ↦ (0, w) | now ∷ rest ↦ (now, record w { clock = rest }) ]

-- A send of the buffer: `none` is a run that has not come to its end within its fuel.
abbrev pub Flush : Type 0
Flush = Link → Option Link

-- The last part of `tcp_client_disconnect`.
unfoldable pub drop_socket : Link → Link
drop_socket (c, w) = elim c.sock_fd [
  | none ↦ (record c { is_connected = false }, w)
  | some fd ↦ (record c { sock_fd = none; is_connected = false }, close_fd fd w)
]

-- `tcp_client_disconnect`, over the flush of what is still in the buffer.
unfoldable pub disconnect_over : Flush → Link → Option Link
disconnect_over flush (c, w) = elim c.sock_fd [
  | none ↦ some (drop_socket (c, w))
  | some fd ↦
      if ltb 0 (length c.send_buffer)
      then (flush (c, w) >>= λ l. some (drop_socket l))
      else some (drop_socket (c, w))
]

-- What `tcp_client_reconnect` does once it has disconnected.
unfoldable pub retry : Link → Bool × Link
retry l =
    let (success, (c, w)) = tcp_client_connect l in
    if success
    then (
      true,
      (
        record c {
          reconnect_count = add64 c.reconnect_count 1;
          reconnect_retries = 0;
          reconnect_delay_ms = initial_delay_ms;
        },
        w,
      ),
    )
    else (
      false,
      (
        record c {
          reconnect_retries = c.reconnect_retries + 1;
          reconnect_delay_ms =
              calculate_backoff_delay (c.reconnect_retries + 1) initial_delay_ms max_delay_ms;
        },
        w,
      ),
    )

-- The attempt comes too early after the last one.
abbrev pub too_early : TcpClient → ℕ → Bool
too_early c now_ms =
    ltb 0 c.last_reconnect_time && ltb (sub64 now_ms c.last_reconnect_time) c.reconnect_delay_ms

-- `tcp_client_reconnect`: whether it returns 0.
unfoldable pub reconnect_over : Flush → Link → Option (Bool × Link)
reconnect_over flush (c, w) =
    if not c.auto_reconnect
    then some (false, (c, w))
    else let (now_ms, w1) = tick w in
      if too_early c now_ms
      then some (false, (c, w1))
      else let c1 : TcpClient = record c { last_reconnect_time = now_ms } in
        if leb max_retries c.reconnect_retries
        then some (false, (c1, w1))
        else (disconnect_over flush (c1, w1) >>= λ l. some (retry l))
