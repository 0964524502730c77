-- ===== src/Broadcaster/Delivery.antt =====
-- Broadcaster: runs of its operations, and the messages that a run sends, receives and discards.
use terminal_card.Base.{
  ℕ, ◌+◌, Bool, true, false, not, ◌&&◌, Option, none, some, List, [], ◌∷◌, ◌++◌, if◌then◌else◌,
  take, drop, ◌==◌,
}
use terminal_card.Base.GoMap.{lookup}
use terminal_card.Broadcaster.{
  Gaps, Subscriber, Broadcaster, subscribe, unsubscribe, is_full, broadcast, close, receive,
}

-- An operation of a broadcaster, or a receive from the channel of a subscriber. A broadcast names the
-- receives that fall within it.
pub data Step (T : Type 0) : Type 0 where
  subscribes closes : Step T
  unsubscribes receives : ℕ → Step T
  broadcasts : (ℕ → Gaps) → T → Step T

module _ {T : Type 0} where
  unfoldable pub step : Step T → Broadcaster T → Broadcaster T
  step Step.subscribes b = (subscribe b).0
  step Step.closes b = close b
  step (Step.unsubscribes k) b = unsubscribe k b
  step (Step.receives k) b = receive k b
  step (Step.broadcasts gaps msg) b = broadcast gaps msg b

  unfoldable pub run : List (Step T) → Broadcaster T → Broadcaster T
  run [] b = b
  run (st ∷ sts) b = run sts (step st b)

  -- No step closes the channel.
  unfoldable pub keeps : ℕ → Step T → Bool
  keeps k Step.subscribes = true
  keeps k Step.closes = false
  keeps k (Step.unsubscribes j) = not (j == k)
  keeps k (Step.receives j) = true
  keeps k (Step.broadcasts gaps msg) = true

  unfoldable pub all_keep : ℕ → List (Step T) → Bool
  all_keep k [] = true
  all_keep k (st ∷ sts) = keeps k st && all_keep k sts

  -- The messages broadcast by a run.
  unfoldable pub sent_in : Step T → List T
  sent_in Step.subscribes = []
  sent_in Step.closes = []
  sent_in (Step.unsubscribes j) = []
  sent_in (Step.receives j) = []
  sent_in (Step.broadcasts gaps msg) = msg ∷ []

  unfoldable pub sent_by : List (Step T) → List T
  sent_by [] = []
  sent_by (st ∷ sts) = sent_in st ++ sent_by sts

  unfoldable pub oldest : Option (Subscriber T) → List T
  oldest none = []
  oldest (some s) = take 1 s.buffer

  -- What the subscriber receives, and what is discarded, while a broadcast is at its channel, and
  -- whether the broadcast counts a drop that discards nothing.
  unfoldable pub taken_while : Gaps → Subscriber T → List T
  taken_while g s =
      if is_full s
      then take g.early s.buffer ++ take g.late (drop 1 (drop g.early s.buffer))
      else []

  unfoldable pub discarded_while : Gaps → Subscriber T → List T
  discarded_while g s = if is_full s then take 1 (drop g.early s.buffer) else []

  unfoldable pub emptied : List T → ℕ
  emptied [] = 1
  emptied (x ∷ xs) = 0

  unfoldable pub in_vain_while : Gaps → Subscriber T → ℕ
  unfolding emptied
  in_vain_while g s = if is_full s then emptied (drop g.early s.buffer) else 0

  -- The messages that a run receives from a channel.
  unfoldable pub taken_in : ℕ → Step T → Broadcaster T → List T
  taken_in k Step.subscribes b = []
  taken_in k Step.closes b = []
  taken_in k (Step.unsubscribes j) b = []
  taken_in k (Step.receives j) b = if j == k then oldest (lookup k b.subscribers) else []
  taken_in k (Step.broadcasts gaps msg) b = elim (lookup k b.subscribers) [
    | none ↦ []
    | some s ↦ taken_while (gaps k) s
  ]

  unfoldable pub taken_by : ℕ → List (Step T) → Broadcaster T → List T
  taken_by k [] b = []
  taken_by k (st ∷ sts) b = taken_in k st b ++ taken_by k sts (step st b)

  -- The messages that broadcasts take out of a channel and discard, in a run.
  unfoldable pub discarded_in : ℕ → Step T → Broadcaster T → List T
  discarded_in k Step.subscribes b = []
  discarded_in k Step.closes b = []
  discarded_in k (Step.unsubscribes j) b = []
  discarded_in k (Step.receives j) b = []
  discarded_in k (Step.broadcasts gaps msg) b = elim (lookup k b.subscribers) [
    | none ↦ []
    | some s ↦ discarded_while (gaps k) s
  ]

  unfoldable pub discarded_by : ℕ → List (Step T) → Broadcaster T → List T
  discarded_by k [] b = []
  discarded_by k (st ∷ sts) b = discarded_in k st b ++ discarded_by k sts (step st b)

  -- The drops of a run that are counted with nothing discarded: the subscriber had drained the buffer.
  unfoldable pub in_vain_in : ℕ → Step T → Broadcaster T → ℕ
  in_vain_in k Step.subscribes b = 0
  in_vain_in k Step.closes b = 0
  in_vain_in k (Step.unsubscribes j) b = 0
  in_vain_in k (Step.receives j) b = 0
  in_vain_in k (Step.broadcasts gaps msg) b = elim (lookup k b.subscribers) [
    | none ↦ 0
    | some s ↦ in_vain_while (gaps k) s
  ]

  unfoldable pub in_vain_by : ℕ → List (Step T) → Broadcaster T → ℕ
  in_vain_by k [] b = 0
  in_vain_by k (st ∷ sts) b = in_vain_in k st b + in_vain_by k sts (step st b)
