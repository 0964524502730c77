-- ===== src/CrazyEight.antt =====
-- internal/game/crazyeight: the rules of Crazy Eights. A suit or rank is its uint8 value. An index
-- out of range or a nil pile is the error `panic`.
pub mod Laws
pub mod Hooks
use terminal_card.Base.{
  ℕ, zero, suc, ◌+◌, ◌≡◌, Bool, true, false, not, Option, none, some, List, [], ◌∷◌, ◌++◌, ◌==◌,
  if◌then◌else◌, get_elem?, map,
}
use terminal_card.Base.Int.{ℤ, pos, negsuc}
use terminal_card.Deck.{
  Card, Pile, Shuffler, peek, draw, add_card, is_suit, contains_card, remove_one,
}
use terminal_card.Game.{Player, Rules, LeaveHandler, seat}
use terminal_card.Game
use terminal_card.Game.Shed.{
  RefillError, refill, return_hand, hand_empty_or_all_passed, shed_score, shed_standings,
  open_discard,
}
use terminal_card.Game.Cards.{set_hand}

-- ShedState's counter, and the suit to follow.
pub record State : Type 0 where
  pub passes : ℕ
  pub current_suit : ℕ

abbrev pub Table : Type 0
Table = Game.State (Option State)

pub data Action : Type 0 where
  play_card : Card → ℕ → Action
  draw_card foreign : Action

pub data Error : Type 0 where
  invalid_state unknown_action no_discard not_held no_suit no_match not_enough_cards panic : Error
  not_refilled : RefillError → Error

abbrev pub eight : ℕ
eight = 8

-- The cards that may open the discard pile.
unfoldable pub opens : Card → Bool
opens c = not (c.rank == eight)

-- OnGameStart after OpenDiscard, which never runs out of its fuel.
unfoldable pub opened : Option (Table × Option Card) → Table → Table × Option Error
opened none t = (t, some Error.panic)
opened (some (u, none)) t = (u, some Error.not_enough_cards)
opened (some (u, some top)) t =
    (record u { extra = some (record { passes = 0; current_suit = top.suit }) }, none)

unfoldable pub on_game_start : Shuffler → Table → Table × Option Error
on_game_start sh t =
    let fresh = record t { extra = some (record { passes = 0; current_suit = 0 }) } in
    opened (open_discard sh opens fresh) fresh

unfoldable pub validate_card : State → List Card → Card → ℕ → Card → Option Error
validate_card x hand card suit top =
    if not (contains_card card hand)
    then some Error.not_held
    else if card.rank == eight
    then (if is_suit suit then none else some Error.no_suit)
    else if card.suit == x.current_suit
    then none
    else if card.rank == top.rank
    then none
    else some Error.no_match

unfoldable pub validate_on : Table → State → Card → ℕ → Option Card → Option Error
validate_on t x card suit none = some Error.no_discard
validate_on t x card suit (some top) = elim (seat t.current_turn t.players) [
  | none ↦ some Error.panic
  | some p ↦ validate_card x p.cards card suit top
]

unfoldable pub validate_in : Table → Option State → Action → Option Error
validate_in t none action = some Error.invalid_state
validate_in t (some x) (Action.play_card card suit) = elim t.discard [
  | none ↦ some Error.panic
  | some d ↦ validate_on t x card suit (peek d)
]
validate_in t (some x) Action.draw_card = none
validate_in t (some x) Action.foreign = some Error.unknown_action

unfoldable pub validate_action : Table → Action → Option Error
validate_action t action = validate_in t t.extra action

-- ApplyAction's play by the player at seat i.
unfoldable pub apply_play : Table → ℕ → Player → Card → ℕ → Option Pile → Table × Option Error
apply_play t i p card suit none = (t, some Error.panic)
apply_play t i p card suit (some d) = (
  record t {
    players = set_hand i (remove_one p.cards card) t.players;
    discard = some (add_card d (card ∷ []));
    extra =
        some (record { passes = 0; current_suit = if card.rank == eight then suit else card.suit });
  },
  none,
)

-- ApplyAction's draw from a stock that was refilled; without a card it is a forced pass.
unfoldable pub draw_into : Table → State → ℕ → Player → Pile × Option Card → Table × Option Error
draw_into t x i p (left, none) =
    (record t { deck = left; extra = some (record x { passes = x.passes + 1 }) }, none)
draw_into t x i p (left, some card) = (
  record t {
    deck = left;
    players = set_hand i (p.cards ++ card ∷ []) t.players;
    extra = some (record x { passes = 0 });
  },
  none,
)

unfoldable pub apply_draw : State → ℕ → Player → Table × Option RefillError → Table × Option Error
apply_draw x i p (t, some err) = (t, some (Error.not_refilled err))
apply_draw x i p (t, none) = draw_into t x i p (draw t.deck)

unfoldable pub apply_by : Shuffler → Table → State → ℕ → Player → Action → Table × Option Error
apply_by sh t x i p (Action.play_card card suit) = apply_play t i p card suit t.discard
apply_by sh t x i p Action.draw_card = apply_draw x i p (refill sh t)
apply_by sh t x i p Action.foreign = (t, none)

unfoldable pub apply_at : Shuffler → Table → State → ℤ → Action → Table × Option Error
apply_at sh t x (negsuc i) action = (t, some Error.panic)
apply_at sh t x (pos i) action = elim (get_elem? t.players i) [
  | none ↦ (t, some Error.panic)
  | some p ↦ apply_by sh t x i p action
]

unfoldable pub apply_in : Shuffler → Table → Option State → Action → Table × Option Error
apply_in sh t none action = (t, some Error.invalid_state)
apply_in sh t (some x) action = apply_at sh t x t.current_turn action

unfoldable pub apply_action : Shuffler → Table → Action → Table × Option Error
apply_action sh t action = apply_in sh t t.extra action

unfoldable pub wins : Table → Option State → Bool
wins t none = false
wins t (some x) = hand_empty_or_all_passed t.players x.passes

-- LeaveShedGame.
unfoldable pub leave_in : Shuffler → Table → Option State → ℕ → Table
leave_in sh t none pid = t
leave_in sh t (some x) pid =
    return_hand sh (record t { extra = some (record x { passes = 0 }) }) pid

unfoldable pub on_player_leave : Shuffler → Table → ℕ → Table
on_player_leave sh t pid = leave_in sh t t.extra pid

-- The Rules of the package.
abbrev pub crazy_rules : Shuffler → Rules (Option State) Action Error
crazy_rules sh = record {
  initial_deal_count = pos 7;
  on_game_start = on_game_start sh;
  validate_action = validate_action;
  apply_action = apply_action sh;
  after_action = λ t a. (t, none);
  check_win_condition = λ t. wins t t.extra;
  standings = λ t. map some (shed_standings t.players);
  timeout_action = some (λ t. some Action.draw_card);
  turn_timeout = none;
  leave_handler =
      some (record { on_player_leave = on_player_leave sh; after_player_removed = λ t i. t });
  standing_score = some (λ t p. pos (shed_score p));
}
