-- ===== src/Ratelimit/Grants.antt =====
-- The limiter grants no address more than its limit within a window, on any run of calls.
use terminal_card.Base.{ℕ, ◌≤◌, ◌≡◌, List, [], length}
use terminal_card.Base.GoMap.{GoMap, get_or, IsDistinct}
use terminal_card.Ratelimit.{SlidingWindowLimiter, filter_expired}

-- The log of an address holds the times at which it was granted, but for those that have expired, and
-- of these there are no more than the limit.
record IsTracked (ip last : ℕ) (times : List ℕ) (s : SlidingWindowLimiter) : Type 0 where
  distinct : IsDistinct s.logs
  tracked :
      (now : ℕ)
      → last ≤ now
      → filter_expired s.window now (get_or [] ip s.logs) ≡ filter_expired s.window now times
  bounded : (now : ℕ) → last ≤ now → length (filter_expired s.window now times) ≤ s.limit
