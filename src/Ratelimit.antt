-- ===== src/Ratelimit.antt =====
-- internal/ratelimit/limiter.go: a sliding-window limiter. A time is a number of nanoseconds and an
-- address a number. The mutex makes each call one step.
pub mod Window
pub mod Size
pub mod Grants
use terminal_card.Base.{
  ℕ, zero, suc, ◌+◌, ◌%◌, ◌^◌, ◌≡◌, Bool, true, false, ◌&&◌, not, List, [], ◌∷◌, ◌++◌, ◌==◌, ltb,
  leb, if◌then◌else◌, length, erase_at,
}
use terminal_card.Base.GoMap.{GoMap, get_or, contains_key, put, delete}

abbrev pub default_max_keys : ℕ
default_max_keys = 10000

abbrev pub sweep_every : ℕ
sweep_every = 64

pub record SlidingWindowLimiter : Type 0 where
  pub limit : ℕ
  pub window : ℕ
  pub logs : GoMap (List ℕ)
  pub ops : ℕ
  pub max_keys : ℕ

unfoldable pub new : ℕ → ℕ → SlidingWindowLimiter
new limit window = record {
  limit = limit;
  window = window;
  logs = [];
  ops = 0;
  max_keys = default_max_keys;
}

unfoldable pub with_max_keys : ℕ → SlidingWindowLimiter → SlidingWindowLimiter
with_max_keys n s = if ltb 0 n then record s { max_keys = n } else s

-- t.After(now.Add(-window)), the difference brought to the other side.
unfoldable pub is_live : ℕ → ℕ → ℕ → Bool
is_live window now t = ltb now (t + window)

-- filterExpired for the threshold `now` less `window`.
unfoldable pub filter_expired : ℕ → ℕ → List ℕ → List ℕ
filter_expired window now [] = []
filter_expired window now (t ∷ ts) =
    let rest = filter_expired window now ts in if is_live window now t then t ∷ rest else rest

-- logs[ip] = timestamps, or the key deleted where there are none.
unfoldable pub store : ℕ → List ℕ → GoMap (List ℕ) → GoMap (List ℕ)
store ip [] logs = delete ip logs
store ip (t ∷ ts) logs = put ip (t ∷ ts) logs

-- evictExpiredLocked's loop, on the entries in the order of iteration.
unfoldable pub kept_entry : ℕ → List ℕ → GoMap (List ℕ) → GoMap (List ℕ)
kept_entry ip [] rest = rest
kept_entry ip (t ∷ ts) rest = (ip, t ∷ ts) ∷ rest

unfoldable pub evict_expired : ℕ → ℕ → GoMap (List ℕ) → GoMap (List ℕ)
evict_expired window now [] = []
evict_expired window now ((ip, ts) ∷ logs) =
    kept_entry ip (filter_expired window now ts) (evict_expired window now logs)

-- evictOneLocked. The entry that Go's iteration meets first is at a position that the caller gives.
unfoldable pub evict_one : ℕ → GoMap (List ℕ) → GoMap (List ℕ)
evict_one first logs = erase_at (first % length logs) logs

-- Whether a new key finds the table full.
unfoldable pub evicts : ℕ → ℕ → GoMap (List ℕ) → Bool
evicts max_keys ip logs = not (contains_key ip logs) && leb max_keys (length logs)

unfoldable pub make_room : ℕ → ℕ → ℕ → GoMap (List ℕ) → GoMap (List ℕ)
make_room max_keys first ip logs = if evicts max_keys ip logs then evict_one first logs else logs

unfoldable pub sweep : ℕ → ℕ → ℕ → GoMap (List ℕ) → GoMap (List ℕ)
sweep ops window now logs = if ops % sweep_every == 0 then evict_expired window now logs else logs

-- Allow for an address whose live timestamps are `ts`, on the table that holds them.
unfoldable pub allow_with :
    ℕ → ℕ → ℕ → SlidingWindowLimiter → List ℕ → GoMap (List ℕ) → SlidingWindowLimiter × Bool
allow_with first now ip s ts logs =
    let ops = (s.ops + 1) % 2 ^ 64 in
    if leb s.limit (length ts) then (record s { logs = logs }, false) else (
      record s {
        logs =
            sweep ops s.window now (put ip (ts ++ now ∷ []) (make_room s.max_keys first ip logs));
        ops = ops;
      },
      true,
    )

unfoldable pub live_log : ℕ → ℕ → SlidingWindowLimiter → List ℕ
live_log now ip s = filter_expired s.window now (get_or [] ip s.logs)

-- Allow, called at a time, with the position that an eviction would meet first.
unfoldable pub allow : ℕ → ℕ → ℕ → SlidingWindowLimiter → SlidingWindowLimiter × Bool
allow first now ip s =
    let ts = live_log now ip s in allow_with first now ip s ts (store ip ts s.logs)

-- Size.
unfoldable pub size : SlidingWindowLimiter → ℕ
size s = length s.logs
