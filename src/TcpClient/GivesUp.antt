-- ===== src/TcpClient/GivesUp.antt =====
-- A client that has used up its retries.
use stb_e_bpf.Base.{
  ℕ, ◌≤◌, ◌≡◌, refl, inl, inr, false, Option, none, some, List, [], ◌∷◌, arith, Option-cases, ◌>>=◌,
}
use stb_e_bpf.TcpClient.{TcpClient, World, Link, Flush, max_retries, reconnect_over}
use stb_e_bpf.TcpClient.Send.{
  send_over, ready_over, transmit_over, tcp_client_send, tcp_client_reconnect, flush_at,
}

-- What the main loop does with a client that is not connected.
pub data Attempt : Type 0 where
  reconnect : Attempt
  send : List ℕ → Attempt

unfoldable pub attempt : ℕ → Link → Attempt → Option Link
attempt depth l reconnect = tcp_client_reconnect depth l >>= λ r. some r.1
attempt depth l (send text) = tcp_client_send depth l text >>= λ r. some r.1

unfoldable pub attempts : ℕ → Link → List Attempt → Option Link
attempts depth l [] = some l
attempts depth l (a ∷ rest) = attempt depth l a >>= λ l'. attempts depth l' rest

-- Not connected, and out of retries.
pub record IsSpent (l : Link) : Type 0 where
  pub down : l.0.is_connected ≡ false
  pub spent : max_retries ≤ l.0.reconnect_retries

-- No connection was tried and nothing was sent.
pub record Idle (l l' : Link) : Type 0 where
  pub spent : IsSpent l'
  pub connects : l'.1.connects ≡ l.1.connects
  pub sends : l'.1.sends ≡ l.1.sends
  pub wire : l'.1.wire ≡ l.1.wire
  pub open_fds : l'.1.open_fds ≡ l.1.open_fds

abbrev Stays : Link → Option Link → Type 0
Stays l none = ⊥
Stays l (some l') = Idle l l'

reconnect-spent :
    (flush : Flush) (c : TcpClient) (w : World) (ts : List ℕ)
    → IsSpent (c, w)
    → Stays (c, w) (reconnect_over flush (c, record w { clock = ts }) >>= λ r. some r.1)
unfolding reconnect_over
reconnect-spent flush c w [] s = ground arith
reconnect-spent flush c w (now ∷ ts) s = ground arith

pub attempt-spent : (depth : ℕ) (l : Link) (a : Attempt) → IsSpent l → Stays l (attempt depth l a)
unfolding attempt tcp_client_reconnect tcp_client_send send_over ready_over transmit_over
attempt-spent depth (c, w) reconnect s =
    ground (arith, reconnect-spent (flush_at depth) c w w.clock s)
attempt-spent depth (c, w) (send text) s =
    ground (arith, reconnect-spent (flush_at depth) c w w.clock s)

-- Once a client that is not connected has used its ten retries, no sequence of reconnections and
-- sends tries to connect again or sends a byte: each call returns, and the client stays as spent.
pub attempts-spent :
    (depth : ℕ) (l : Link) (todo : List Attempt)
    → IsSpent l
    → (l' : Link) × (attempts depth l todo ≡ some l') × Idle l l'
unfolding attempts
attempts-spent depth l [] s =
    (l, refl, record { spent = s; connects = refl; sends = refl; wire = refl; open_fds = refl })
attempts-spent depth l (a ∷ rest) s = elim (Option-cases (attempt depth l a)) [
  | inl stuck ↦ absurd (ground (arith, attempt-spent depth l a s))
  | inr (l1, e) ↦
      let i : Idle l l1 = ground (arith, attempt-spent depth l a s) in
      let (l', e', i') = attempts-spent depth l1 rest i.spent in
      (l', rw (e, attempts) e', ground arith)
]
