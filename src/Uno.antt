-- ===== src/Uno.antt =====
-- internal/game/uno: the rules of Uno. A color or rank is its uint8 value, the direction 1 or -1. An
-- index out of range or a nil pile is the error `panic`.
pub mod Deck
pub mod Moves
pub mod Laws
use terminal_card.Base.{
  ℕ, zero, suc, ◌+◌, ◌*◌, ◌≡◌, Bool, true, false, ◌&&◌, ◌||◌, not, Option, none, some, List, [],
  ◌∷◌, ◌++◌, ◌==◌, ltb, leb, if◌then◌else◌, length,
}
use terminal_card.Base.Int.{ℤ, pos, negsuc, ◌+ℤ◌, sub_ℕ}
use terminal_card.Deck.{Card, Pile, Shuffler, peek, draw, is_suit, contains_card}
use terminal_card.Engine.{clamp_turn}
use terminal_card.Game.{Player, seat}
use terminal_card.Game
use terminal_card.Game.Shed.{RefillError, refill}
use terminal_card.Game.Cards.{append_hand}

pub record State : Type 0 where
  pub passes : ℕ
  pub current_color : ℕ
  pub direction : ℤ
  pub leaver_was_on_turn : Bool

abbrev pub Table : Type 0
Table = Game.State (Option State)

pub data Action : Type 0 where
  play_card : Card → ℕ → Action
  draw_card foreign : Action

pub data Error : Type 0 where
  invalid_state unknown_action no_discard not_held no_color color_held no_match : Error
  not_enough_cards panic : Error

-- Uno's ranks.
abbrev pub zero_rank : ℕ
zero_rank = 20

abbrev pub one_rank : ℕ
one_rank = 21

abbrev pub skip : ℕ
skip = 22

abbrev pub reverse_rank : ℕ
reverse_rank = 23

abbrev pub draw_two : ℕ
draw_two = 24

abbrev pub wild : ℕ
wild = 25

abbrev pub wild_draw_four : ℕ
wild_draw_four = 26

unfoldable pub is_wild : ℕ → Bool
is_wild r = (r == wild) || (r == wild_draw_four)

unfoldable pub has_color : List Card → ℕ → Bool
has_color [] color = false
has_color (c ∷ cs) color = (not (is_wild c.rank) && (c.suit == color)) || has_color cs color

-- int(Direction) * steps.
unfoldable pub steps_in : ℤ → ℕ → ℤ
steps_in (pos d) steps = pos (d * steps)
steps_in (negsuc d) steps = sub_ℕ 0 (suc d * steps)

-- advance: the same arithmetic as the engine's clamp.
unfoldable pub advance : Table → State → ℕ → ℤ
advance t x steps = clamp_turn (t.current_turn +ℤ steps_in x.direction steps) (length t.players)

module _ (sh : Shuffler) where
  -- A round of drawCardsInto's loop, with the rounds that follow: the table, and the cards drawn.
  unfoldable pub draw_round : (Table → Table × ℕ) → ℕ → Table → Pile × Option Card → Table × ℕ
  draw_round more i t (left, none) = (record t { deck = left }, 0)
  draw_round more i t (left, some card) =
      let (u, drew) =
        more (record t { deck = left; players = append_hand i (card ∷ []) t.players }) in
      (u, suc drew)

  -- A refill that fails ends the draw, also where the discard pile is nil.
  unfoldable pub draw_refilled : (Table → Table × ℕ) → ℕ → Table × Option RefillError → Table × ℕ
  draw_refilled more i (t, some err) = (t, 0)
  draw_refilled more i (t, none) = draw_round more i t (draw t.deck)

  -- drawCardsInto's loop: n cards for the player at seat i, as far as there are any.
  unfoldable pub draw_loop : ℕ → ℕ → Table → Table × ℕ
  draw_loop zero i t = (t, 0)
  draw_loop (suc n) i t = draw_refilled (draw_loop n i) i (refill sh t)

  -- drawCardsInto, and whether a card was drawn.
  unfoldable pub draw_cards_into : Table → ℤ → ℕ → Table × Bool
  draw_cards_into t (negsuc i) n = (t, false)
  draw_cards_into t (pos i) n =
      let (u, drew) = draw_loop n i t in
      if leb (length t.players) i || (n == 0) then (t, false) else (u, ltb 0 drew)

unfoldable pub validate_wild : State → List Card → Card → ℕ → Option Error
validate_wild x hand card chosen =
    if not (is_suit chosen)
    then some Error.no_color
    else if (card.rank == wild_draw_four) && has_color hand x.current_color
    then some Error.color_held
    else none

unfoldable pub validate_card : State → List Card → Card → ℕ → Card → Option Error
validate_card x hand card chosen top =
    if not (contains_card card hand)
    then some Error.not_held
    else if is_wild card.rank
    then validate_wild x hand card chosen
    else if card.suit == x.current_color
    then none
    else if (card.rank == top.rank) && not (is_wild top.rank)
    then none
    else some Error.no_match

unfoldable pub validate_on : Table → State → Card → ℕ → Option Card → Option Error
validate_on t x card chosen none = some Error.no_discard
validate_on t x card chosen (some top) = elim (seat t.current_turn t.players) [
  | none ↦ some Error.panic
  | some p ↦ validate_card x p.cards card chosen top
]

unfoldable pub validate_in : Table → Option State → Action → Option Error
validate_in t none action = some Error.invalid_state
validate_in t (some x) (Action.play_card card chosen) = elim t.discard [
  | none ↦ some Error.panic
  | some d ↦ validate_on t x card chosen (peek d)
]
validate_in t (some x) Action.draw_card = none
validate_in t (some x) Action.foreign = some Error.unknown_action

unfoldable pub validate_action : Table → Action → Option Error
validate_action t action = validate_in t t.extra action
