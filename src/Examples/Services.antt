-- ===== src/Examples/Services.antt =====
-- The broadcaster and the rate limiter on short runs.
use terminal_card.Base.{ℕ, zero, suc, ◌++◌, ◌<◌, ◌⊎◌, ◌≡◌, refl, inr, true, List, [], ◌∷◌, arith}
use terminal_card.Base.Int.{pos}
use terminal_card.Broadcaster.{
  Gaps, Subscriber, deliver, is_full, Broadcaster, new, subscribe, capacity,
}
use terminal_card.Broadcaster.Delivery.{
  Step, run, all_keep, sent_by, taken_by, keeps, discarded_by, in_vain_by,
}
use terminal_card.Broadcaster.Runs.{Delivers, run-Delivers}
use terminal_card.Ratelimit.{SlidingWindowLimiter, allow}
use terminal_card.Ratelimit
use terminal_card.Ratelimit.Size.{IsWithinKeys, allow-IsWithinKeys}
use terminal_card.Ratelimit.Window.{Call}

abbrev fresh : Broadcaster ℕ
unfolding new
fresh = new (pos 2)

abbrev joined : Broadcaster ℕ
unfolding subscribe
joined = (subscribe fresh).0

-- A broadcast in which no subscriber receives, and one in which each empties its channel meanwhile.
abbrev quiet : ℕ → Gaps
quiet k = record { early = 0; late = 0 }

abbrev hasty : ℕ → Gaps
hasty k = record { early = 256; late = 0 }

abbrev burst : ℕ → List (Step ℕ) → List (Step ℕ)
burst zero sts = sts
burst (suc n) sts = Step.broadcasts quiet n ∷ burst n sts

-- The channel fills, loses one message to a broadcast, and is emptied within the next.
abbrev traffic : List (Step ℕ)
traffic =
    Step.subscribes
    ∷ Step.receives 0
    ∷ burst 257 (Step.unsubscribes 1 ∷ Step.broadcasts hasty 8 ∷ Step.broadcasts quiet 9 ∷ [])

subscribe_accepts : subscribe fresh ≡ (joined, inr 0)
unfolding subscribe fresh capacity
subscribe_accepts = refl

traffic_keeps : all_keep 0 traffic ≡ true
unfolding all_keep keeps
traffic_keeps = refl

abbrev sevens : ℕ → List ℕ
sevens zero = []
sevens (suc n) = 7 ∷ sevens n

abbrev full_channel : Subscriber ℕ
full_channel = record { id = 0; buffer = sevens 256; dropped = 0 }

-- The drop is counted, though the subscriber had received every message.
counts_in_vain : deliver (hasty 0) 9 full_channel ≡ record { id = 0; buffer = 9 ∷ []; dropped = 1 }
unfolding deliver is_full
counts_in_vain = refl

run-Delivers_example :
    (d : Delivers 0
      (run traffic joined)
      (sent_by traffic)
      (taken_by 0 traffic joined)
      (discarded_by 0 traffic joined)
      (in_vain_by 0 traffic joined))
    × ((0 < d.subscriber.dropped)
        ⊎ (taken_by 0 traffic joined ++ d.subscriber.buffer ≡ sent_by traffic))
run-Delivers_example = run-Delivers fresh joined 0 traffic subscribe_accepts traffic_keeps

-- Two calls by one address and one by another, at a limit of one call in ten.
abbrev calls : List Call
calls =
    record { at = 5; ip = 1; first = 0 }
    ∷ record { at = 6; ip = 2; first = 0 }
    ∷ record { at = 7; ip = 1; first = 0 }
    ∷ []

-- A full table of one key.
abbrev full_limiter : SlidingWindowLimiter
full_limiter = record { limit = 3; window = 10; logs = (1, 5 ∷ []) ∷ []; ops = 63; max_keys = 1 }

full_limiter-IsWithinKeys : IsWithinKeys full_limiter
full_limiter-IsWithinKeys = record { fits = omega arith; distinct = (refl, tt) }

allow-IsWithinKeys_example : IsWithinKeys (allow 0 6 2 full_limiter).0
allow-IsWithinKeys_example =
    allow-IsWithinKeys 0 6 2 full_limiter (omega arith) full_limiter-IsWithinKeys
