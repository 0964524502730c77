-- ===== src/Broadcaster.antt =====
-- internal/broadcaster/broadcaster.go: subscribers with a buffered channel each. A channel is named by
-- the id of its subscriber and lives as long as it is open. The mutex makes each method one step of the
-- broadcaster; a receive takes no lock, and is a step of its own or falls within a broadcast.
pub mod Delivery
pub mod Faithful
pub mod Runs
use terminal_card.Base.{
  ◌⊎◌, inl, inr, ℕ, zero, suc, ◌+◌, ◌≡◌, Bool, true, false, Option, none, some, List, [], ◌∷◌, ◌++◌,
  ltb, leb, if◌then◌else◌, length, drop, ◌==◌,
}
use terminal_card.Base.Int.{ℤ, pos, negsuc}
use terminal_card.Base.GoMap.{GoMap, put, delete}

abbrev pub default_max_subscribers : ℕ
default_max_subscribers = 64

abbrev pub subscriber_buffer : ℕ
subscriber_buffer = 256

pub data Error : Type 0 where
  closed at_capacity : Error

-- A subscriber with the buffer of its channel, oldest message first.
pub record Subscriber (T : Type 0) : Type 0 where
  pub id : ℕ
  pub buffer : List T
  pub dropped : ℕ

pub record Broadcaster (T : Type 0) : Type 0 where
  pub subscribers : GoMap (Subscriber T)
  pub next_id : ℕ
  pub is_closed : Bool
  pub max_subscribers : ℕ
  pub total_dropped : ℕ

-- How many messages a subscriber receives within one broadcast: between the send that finds its channel
-- full and the receive that makes room, and between that and the second send. A receive commutes with
-- what is done to other channels, so one before or after these statements is a step of its own.
pub record Gaps : Type 0 where
  pub early : ℕ
  pub late : ℕ

-- The size that New falls back to for a number that is not positive.
unfoldable pub capacity : ℤ → ℕ
capacity (negsuc n) = default_max_subscribers
capacity (pos zero) = default_max_subscribers
capacity (pos (suc n)) = suc n

module _ {T : Type 0} where
  unfoldable pub new : ℤ → Broadcaster T
  new max_subscribers = record {
    subscribers = [];
    next_id = 0;
    is_closed = false;
    max_subscribers = capacity max_subscribers;
    total_dropped = 0;
  }

  -- Subscribe, with the channel it returns or its error.
  unfoldable pub subscribe : Broadcaster T → Broadcaster T × (Error ⊎ ℕ)
  subscribe b =
      if b.is_closed
      then (b, inl Error.closed)
      else if leb b.max_subscribers (length b.subscribers)
      then (b, inl Error.at_capacity)
      else (
        record b {
          subscribers =
              put b.next_id (record { id = b.next_id; buffer = []; dropped = 0 }) b.subscribers;
          next_id = b.next_id + 1;
        },
        inr b.next_id,
      )

  -- Unsubscribe, of the subscriber with this channel.
  unfoldable pub unsubscribe : ℕ → Broadcaster T → Broadcaster T
  unsubscribe k b = record b { subscribers = delete k b.subscribers }

  unfoldable pub is_full : Subscriber T → Bool
  is_full s = leb subscriber_buffer (length s.buffer)

  -- A send that does not block.
  unfoldable pub send : T → Subscriber T → Subscriber T
  send msg s = record s { buffer = s.buffer ++ msg ∷ [] }

  -- The receive of the inner select, with its default: nothing, where the channel is empty.
  unfoldable pub drain : Subscriber T → Subscriber T
  drain s = record s { buffer = drop 1 s.buffer }

  -- The subscriber's own receives from its channel, `n` of them or until it is empty.
  unfoldable pub received_by : ℕ → Subscriber T → Subscriber T
  received_by n s = record s { buffer = drop n s.buffer }

  -- One round of Broadcast's loop, with the receives that fall within it: a channel that was full is
  -- counted, and loses its oldest message if there still is one.
  unfoldable pub deliver : Gaps → T → Subscriber T → Subscriber T
  unfolding send drain received_by
  deliver g msg s =
      if is_full s
      then send msg
          (received_by g.late (drain (received_by g.early (record s { dropped = s.dropped + 1 }))))
      else send msg s

  unfoldable pub deliver_all : (ℕ → Gaps) → T → GoMap (Subscriber T) → GoMap (Subscriber T)
  deliver_all gaps msg [] = []
  deliver_all gaps msg ((k, s) ∷ m) = (k, deliver (gaps k) msg s) ∷ deliver_all gaps msg m

  -- How many channels a broadcast finds full.
  unfoldable pub full_channels : GoMap (Subscriber T) → ℕ
  full_channels [] = 0
  full_channels ((k, s) ∷ m) = (if is_full s then 1 else 0) + full_channels m

  unfoldable pub broadcast : (ℕ → Gaps) → T → Broadcaster T → Broadcaster T
  broadcast gaps msg b = if b.is_closed then b else record b {
    subscribers = deliver_all gaps msg b.subscribers;
    total_dropped = b.total_dropped + full_channels b.subscribers;
  }

  unfoldable pub close : Broadcaster T → Broadcaster T
  close b = if b.is_closed then b else record b { is_closed = true; subscribers = [] }

  -- Len.
  unfoldable pub subscriber_count : Broadcaster T → ℕ
  subscriber_count b = length b.subscribers

  -- A receive from a subscriber's channel takes the oldest message, if there is one.
  unfoldable pub received : Subscriber T → Subscriber T
  received s = record s { buffer = drop 1 s.buffer }

  unfoldable pub receive_in : ℕ → GoMap (Subscriber T) → GoMap (Subscriber T)
  receive_in k [] = []
  receive_in k ((j, s) ∷ m) = if j == k then (j, received s) ∷ m else (j, s) ∷ receive_in k m

  unfoldable pub receive : ℕ → Broadcaster T → Broadcaster T
  receive k b = record b { subscribers = receive_in k b.subscribers }
