-- ===== src/Sdk/Http/Bounds.antt =====
-- http.ts, retryDelayMs: the window of each attempt.
use native.Mathlib.Nat.{one-le-pow, pow-succ', pow-le-pow_right}
use fissionplane.Prelude.{ℕ, suc, ◌*◌, ◌^◌, ◌≤◌, ◌<◌, ◌≡◌, min, arith}
use fissionplane.Sdk.Http.{retry_window, retry_delay}

pow_above : (n : ℕ) → 5 ≤ n → 32 ≤ 2 ^ n
pow_above n h = omega (arith, pow-le-pow_right {n = 2} (omega arith) h)

retry_window-pos : (attempt : ℕ) → 250 ≤ retry_window attempt
unfolding retry_window
retry_window-pos attempt = omega (arith, one-le-pow attempt 2 (omega arith))

-- The windows start at 250 ms, double from one attempt to the next until they reach the cap of
-- 8000 ms, and stay there from the sixth attempt on.
pub retry_window_growth :
    (attempt : ℕ)
    → (250 ≤ retry_window attempt)
      × (retry_window attempt ≤ 8000)
      × (retry_window (suc attempt) ≡ min (2 * retry_window attempt) 8000)
      × (5 ≤ attempt → retry_window attempt ≡ 8000)
unfolding retry_window
retry_window_growth attempt = (
  retry_window-pos attempt,
  omega arith,
  omega (arith, pow-succ' 2 attempt),
  λ late. omega (arith, pow_above attempt late),
)

-- A draw below 1 gives a delay inside the window (both in units of 2 ^ -53 ms).
pub retry_delay_bounds :
    (drawn attempt : ℕ) → drawn < 2 ^ 53 → retry_delay drawn attempt < 2 ^ 53 * retry_window attempt
unfolding retry_delay
retry_delay_bounds drawn attempt h = grind (arith, retry_window-pos attempt)
