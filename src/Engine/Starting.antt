-- ===== src/Engine/Starting.antt =====
-- engine.go's Start: the deal, the rules' set-up, and the rollback of a start that fails.
use terminal_card.Base.{
  ℕ, zero, suc, false, not, Option, none, some, List, [], ◌∷◌, ◌==◌, if◌then◌else◌, length,
}
use terminal_card.Base.Int.{ℤ, pos}
use terminal_card.Game.{Player, State, Phase, EventType, EndReason, Rules, is_waiting}
use terminal_card.Engine.{Engine, Error, broadcast, apply_next_turn}
use terminal_card.Deck.{Card, Pile, Shuffler, shuffle_pile, draw_n_cards}
use terminal_card.Deck
use mathlib.Core.Option

-- cryptoIntN over crypto/rand, which answers a number below its argument, or fails.
unfoldable pub crypto_int_n : (ℕ → Option ℕ) → ℕ → Option ℕ
crypto_int_n rand zero = none
crypto_int_n rand (suc n) = rand (suc n)

-- The dealing loop of Start: a hand for each seat, while the pile lasts.
unfoldable pub deal_hands : ℤ → List Player → Pile → Pile × Option (List Player)
unfolding draw_n_cards
deal_hands n [] deck = (deck, some [])
deal_hands n (p ∷ ps) deck =
    let (left, cards) = draw_n_cards deck n in
    let (rest, dealt) = deal_hands n ps left in
    elim cards [
      | none ↦ (left, none)
      | some hand ↦ (rest, Option.map (◌∷◌ (record p { cards = hand })) dealt)
    ]

unfoldable pub drop_hands : List Player → List Player
drop_hands [] = []
drop_hands (p ∷ ps) = record p { cards = [] } ∷ drop_hands ps

module _ {X : Type 0} where
  -- Start's deferred rollback.
  unfoldable pub roll_back : List Card → State X → State X
  unfolding drop_hands
  roll_back undealt s = record s {
    players = drop_hands s.players;
    deck = Deck.new undealt;
    discard = none;
    current_turn = pos 0;
    phase = Phase.waiting;
  }

module _ {X A E : Type 0} (rules : Rules X A E) (now : ℤ) where
  -- Start from the rules' set-up on. A failure is rolled back.
  unfoldable pub set_up : List Card → State X × Option E → Engine X → Engine X × Option (Error E)
  set_up undealt (s, some err) e =
      (record e { state = roll_back undealt s }, some (Error.setup_failed err))
  set_up undealt (s, none) e = (
    broadcast EventType.game_started 0 EndReason.unknown
        (apply_next_turn rules now false (record e { state = s })),
    none,
  )

  -- Start from the first seat's choice on, the hands dealt from what is left in `deck`.
  unfoldable pub seat_first :
      List Card → Pile → List Player → Option ℕ → Engine X → Engine X × Option (Error E)
  seat_first undealt deck dealt none e =
      (record e { state = roll_back undealt e.state }, some Error.no_entropy)
  seat_first undealt deck dealt (some i) e =
      set_up undealt
        (rules.on_game_start (record (e.state) {
          players = dealt;
          deck = deck;
          phase = Phase.playing;
          current_turn = pos i;
        }))
        e

  unfoldable pub open_table :
      (ℕ → Option ℕ)
      → List Card
      → Pile × Option (List Player)
      → Engine X
      → Engine X × Option (Error E)
  open_table rand undealt (deck, none) e =
      (record e { state = roll_back undealt e.state }, some Error.not_enough_cards)
  open_table rand undealt (deck, some dealt) e =
      seat_first undealt deck dealt (crypto_int_n rand (length e.state.players)) e

  unfoldable pub start : Shuffler → (ℕ → Option ℕ) → Engine X → Engine X × Option (Error E)
  start sh rand e =
      if e.is_closed
      then (e, some Error.closed)
      else if not (is_waiting e.state.phase)
      then (e, some Error.already_started)
      else if length e.state.players == 0
      then (e, some Error.no_players)
      else open_table rand e.state.deck.cards
          (deal_hands rules.initial_deal_count e.state.players (shuffle_pile sh e.state.deck)) e
