-- ===== src/Game/Shed.antt =====
-- internal/game/shed.go: what the shedding games share.
pub mod Laws
pub mod Opening
use terminal_card.Base.{
  ℕ, zero, suc, ◌+◌, ◌≡◌, Bool, true, false, ◌&&◌, ◌||◌, not, Option, none, some, List, [], ◌∷◌,
  ◌++◌, ◌==◌, ltb, leb, if◌then◌else◌, length,
}
use terminal_card.Deck.{Card, Pile, Shuffler, shuffle_pile, draw, add_card, is_empty}
use terminal_card.Deck
use terminal_card.Game.{Player, State}
use terminal_card.Game.Scores.{standings_by_score}

-- Why the stock could not be refilled; `no_discard` is the panic on a nil discard pile.
pub data RefillError : Type 0 where
  stock_not_empty no_discard : RefillError

module _ {X : Type 0} (sh : Shuffler) where
  -- ReshuffleDiscardIntoStock once the card in play is drawn off the discard pile.
  unfoldable pub reshuffle_below : State X → Pile × Option Card → State X × Option RefillError
  reshuffle_below s (rest, none) = (s, none)
  reshuffle_below s (rest, some top) = (
    record s {
      discard = some (Deck.new (top ∷ []));
      deck = shuffle_pile sh (add_card s.deck rest.cards);
    },
    none,
  )

  unfoldable pub reshuffle_from : State X → Option Pile → State X × Option RefillError
  reshuffle_from s none = (s, some RefillError.no_discard)
  reshuffle_from s (some d) = reshuffle_below s (draw d)

  unfoldable pub reshuffle_discard : State X → State X × Option RefillError
  reshuffle_discard s =
      if is_empty s.deck then reshuffle_from s s.discard else (s, some RefillError.stock_not_empty)

  -- Before a draw: an empty stock is refilled.
  unfoldable pub refill : State X → State X × Option RefillError
  refill s = if is_empty s.deck then reshuffle_discard s else (s, none)

-- The seats after the first with the id gave up its hand, and that hand.
unfoldable pub take_hand : ℕ → List Player → List Player × Option (List Card)
take_hand pid [] = ([], none)
take_hand pid (p ∷ ps) =
    let (rest, hand) = take_hand pid ps in
    if p.id == pid then (record p { cards = [] } ∷ ps, some p.cards) else (p ∷ rest, hand)

module _ {X : Type 0} (sh : Shuffler) where
  unfoldable pub stock_hand : State X → List Player × Option (List Card) → State X
  stock_hand s (ps, none) = s
  stock_hand s (ps, some hand) = record s {
    players = ps;
    deck = shuffle_pile sh (add_card s.deck hand);
  }

  -- ReturnHandToStock.
  unfoldable pub return_hand : State X → ℕ → State X
  return_hand s pid = stock_hand s (take_hand pid s.players)

unfoldable pub some_hand_empty : List Player → Bool
some_hand_empty [] = false
some_hand_empty (p ∷ ps) = (length p.cards == 0) || some_hand_empty ps

unfoldable pub hand_empty_or_all_passed : List Player → ℕ → Bool
unfolding some_hand_empty
hand_empty_or_all_passed ps passes =
    some_hand_empty ps || (ltb 0 (length ps) && leb (length ps) passes)

unfoldable pub shed_score : Player → ℕ
shed_score p = length p.cards

unfoldable pub shed_standings : List Player → List Player
unfolding standings_by_score shed_score
shed_standings ps = standings_by_score ps shed_score

module _ {X : Type 0} (sh : Shuffler) (playable : Card → Bool) where
  -- OpenDiscard on a card that may open: what was set aside goes back and is shuffled in.
  unfoldable pub open_on : List Card → Card → State X → State X
  open_on [] card s = record s { discard = some (Deck.new (card ∷ [])) }
  open_on (a ∷ aside) card s = record s {
    discard = some (Deck.new (card ∷ []));
    deck = shuffle_pile sh (add_card s.deck (a ∷ aside));
  }

  -- One round of OpenDiscard, with what `draw` returned and the rounds that follow. The card is none
  -- where OpenDiscard reports an error.
  unfoldable pub open_round :
      (List Card → State X → Option (State X × Option Card))
      → List Card
      → State X
      → Pile × Option Card
      → Option (State X × Option Card)
  open_round more aside s (left, none) = some (record s { deck = add_card s.deck aside }, none)
  open_round more aside s (left, some card) =
      if playable card
      then some (open_on aside card (record s { deck = left }), some card)
      else more (aside ++ card ∷ []) (record s { deck = left })

  -- The loop of OpenDiscard. None if the fuel runs out.
  unfoldable pub open_from : ℕ → List Card → State X → Option (State X × Option Card)
  open_from zero aside s = none
  open_from (suc n) aside s = open_round (open_from n) aside s (draw s.deck)

  -- OpenDiscard. Each round draws a card, so one round more than the stock has cards is enough.
  unfoldable pub open_discard : State X → Option (State X × Option Card)
  open_discard s = open_from (suc (length s.deck.cards)) [] s
