-- ===== src/TcpClient/Backoff.antt =====
-- The delay between attempts.
use stb_e_bpf.Base.{
  ℕ, zero, suc, ◌*◌, ◌%◌, ◌^◌, ◌≤◌, ◌<◌, min, ◌≡◌, refl, Bool, true, arith, ◌==◌, u32_mod,
  every_below, every_below-at,
}
use native.Mathlib.Nat.{pow-suc}
use stb_e_bpf.TcpClient.{calculate_backoff_delay, initial_delay_ms, max_delay_ms, max_retries}

one-le-pow : (k : ℕ) → 1 ≤ 2 ^ k
one-le-pow zero = omega arith
one-le-pow (suc k) = omega (arith, one-le-pow k, pow-suc 2 k)

le-shift : (base k : ℕ) → base ≤ base * 2 ^ k
le-shift base k = let p = one-le-pow k in grind arith

-- For a positive base that is not above the cap, and a product that fits an `int`, the delay is the
-- base doubled once for each retry, or the cap if that is less; so it lies between the two.
pub backoff-min :
    (retry_count base max_delay : ℕ)
    → 0 < base
    → base ≤ max_delay
    → base * 2 ^ retry_count < 0x8000_0000
    → (calculate_backoff_delay retry_count base max_delay ≡ min (base * 2 ^ retry_count) max_delay)
      × (base ≤ calculate_backoff_delay retry_count base max_delay)
      × (calculate_backoff_delay retry_count base max_delay ≤ max_delay)
unfolding calculate_backoff_delay
backoff-min zero base max_delay b m fits = (ground arith, ground arith, ground arith)
backoff-min (suc r) base max_delay b m fits =
    let low = le-shift base (suc r) in
    let kept : base * 2 ^ suc r % u32_mod ≡ base * 2 ^ suc r = omega arith in rw kept (ground arith)

abbrev is_schedule : ℕ → Bool
is_schedule r = calculate_backoff_delay r initial_delay_ms max_delay_ms == min (1000 * 2 ^ r) 30_000

schedule_table : every_below is_schedule 11 ≡ true
unfolding every_below calculate_backoff_delay
schedule_table = refl

-- With the configured delays every retry count that the client reaches gives a delay from one to
-- thirty seconds.
pub backoff_bounds :
    (r : ℕ)
    → r ≤ max_retries
    → (1000 ≤ calculate_backoff_delay r initial_delay_ms max_delay_ms)
      × (calculate_backoff_delay r initial_delay_ms max_delay_ms ≤ 30_000)
backoff_bounds r h =
    let row = every_below-at is_schedule 11 r (omega arith) schedule_table in
    let low = le-shift 1000 r in ground arith
