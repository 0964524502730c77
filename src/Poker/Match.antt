-- ===== src/Poker/Match.antt =====
-- internal/game/poker/rules.go: the hooks that the engine calls, with the match as the table's Extra.
use terminal_card.Base.{
  ℕ, Bool, true, false, ◌||◌, Option, none, some, List, [], ◌∷◌, ◌==◌, if◌then◌else◌, length,
}
use terminal_card.Base.Int.{ℤ, pos, negsuc}
use terminal_card.Base.GoMap.{GoMap, put}
use terminal_card.Deck.{Shuffler}
use terminal_card.Game.{Player, seat}
use terminal_card.Poker.{State, Table, Error, RoundPhase, is_folded, is_all_in, contenders}
use terminal_card.Poker.Betting.{Action, validate_next_hand, validate_move, apply_move}
use terminal_card.Poker.Pots.{award_uncontested, refund_contributions}
use terminal_card.Poker.Streets.{
  Outcome, betting_round_complete, next_to_act, first_to_act_postflop, settle_and_advance,
}
use terminal_card.Poker.Hands.{
  default_stack, default_small_blind, default_big_blind, hands_per_match, next_funded_seat,
  finish_hand, begin_hand_or_finish,
}

-- What a hook returns to the engine.
unfoldable pub returned : Outcome → Table × Option Error
returned o = (record (o.table) { extra = some o.match }, o.error)

unfoldable pub set_turn : ℤ → Table → Table
set_turn i t = record t { current_turn = i; override_next_turn = some i }

unfoldable pub starting_stacks : List Player → GoMap ℕ → GoMap ℕ
starting_stacks [] m = m
starting_stacks (p ∷ ps) m = starting_stacks ps (put p.id default_stack m)

unfoldable pub new_match : List Player → ℕ → State
unfolding starting_stacks
new_match ps dealer = record {
  dealer_index = dealer;
  sb_index = 0;
  bb_index = 0;
  main_pool = 0;
  current_bet = 0;
  min_raise = 0;
  small_blind = default_small_blind;
  big_blind = default_big_blind;
  phase = RoundPhase.unknown;
  folded = [];
  players_all_in = [];
  table = [];
  player_chips = starting_stacks ps [];
  player_bets = [];
  total_contributed = [];
  acted_this_round = [];
  pots = [];
  hand_complete = false;
  winners = [];
  reached_showdown = false;
  hand_number = 0;
  hands_total = hands_per_match;
  match_complete = false;
  busted_at_hand = [];
  hand_start_chips = 0;
}

-- OnGameStart with the button at the first turn, which is never negative.
unfoldable pub start_at : Shuffler → Table → ℤ → Table × Option Error
start_at sh t (negsuc _) = (t, some Error.panic)
start_at sh t (pos dealer) =
    returned (begin_hand_or_finish sh t (new_match t.players dealer) dealer)

unfoldable pub on_game_start : Shuffler → Table → Table × Option Error
on_game_start sh t =
    if length t.players == 0 then (t, some Error.no_players) else start_at sh t t.current_turn

unfoldable pub is_showdown : RoundPhase → Bool
is_showdown RoundPhase.showdown = true
is_showdown _ = false

-- ValidateAction of a betting move, by the player on turn.
unfoldable pub validate_betting : Table → State → Action → Option Error
validate_betting t x action =
    if x.hand_complete || is_showdown x.phase
    then some Error.hand_over
    else elim (seat t.current_turn t.players) [
      | none ↦ some Error.panic
      | some p ↦
          if is_folded x p.id || is_all_in x p.id
          then some Error.cannot_act_now
          else validate_move t x p.id action
    ]

unfoldable pub validate_in : Table → Option State → Action → Option Error
validate_in t none action = some Error.invalid_state
validate_in t (some x) Action.next_hand = validate_next_hand x
validate_in t (some x) action = validate_betting t x action

unfoldable pub validate_action : Table → Action → Option Error
validate_action t action = validate_in t t.extra action

unfoldable pub apply_betting : Table → State → Action → Table × Option Error
apply_betting t x action = elim (seat t.current_turn t.players) [
  | none ↦ (t, some Error.panic)
  | some p ↦ (record t { extra = some (apply_move t.players p.id action x) }, none)
]

unfoldable pub apply_in : Table → Option State → Action → Table × Option Error
apply_in t none action = (t, some Error.invalid_state)
apply_in t (some x) Action.next_hand = (t, none)
apply_in t (some x) action = apply_betting t x action

unfoldable pub apply_action : Table → Action → Table × Option Error
apply_action t action = apply_in t t.extra action

-- The hand goes to the only contender.
unfoldable pub win_uncontested : Player → Table → State → Outcome
win_uncontested p t x = finish_hand t (record (award_uncontested p x) { winners = p ∷ [] })

-- The only contender, if there is one and no other.
unfoldable pub sole : List Player → Option Player
sole (p ∷ []) = some p
sole _ = none

-- What afterBettingAction does once a round is over. A round that cannot be settled is unwound.
unfoldable pub close_round : Outcome → Outcome
close_round o = elim o.error [
  | some e ↦ record o { match = refund_contributions o.match }
  | none ↦ if o.match.hand_complete then finish_hand o.table o.match else record o {
    table = record (o.table) { override_next_turn = some (first_to_act_postflop o.table o.match) };
  }
]

-- The seat that the unfinished round passes the turn to.
unfoldable pub next_in_round : Table → State → Option ℤ
next_in_round t x = if betting_round_complete x t.players then none else elim t.current_turn [
  | negsuc _ ↦ none
  | pos i ↦ elim (next_to_act t.players x i) [ none ↦ none | some j ↦ some (pos j) ]
]

unfoldable pub after_betting_action : Table → State → Outcome
after_betting_action t x =
    if x.hand_complete
    then record { table = t; match = x; error = none }
    else elim (sole (contenders t x)) [
      | some p ↦ win_uncontested p t x
      | none ↦ elim (next_in_round t x) [
        | some next ↦ record {
          table = record t { override_next_turn = some next };
          match = x;
          error = none;
        }
        | none ↦ close_round (settle_and_advance t x)
      ]
    ]

unfoldable pub after_in : Shuffler → Table → Option State → Action → Table × Option Error
after_in sh t none action = (t, some Error.invalid_state)
after_in sh t (some x) Action.next_hand =
    returned (begin_hand_or_finish sh t x (next_funded_seat t.players x x.dealer_index))
after_in sh t (some x) action = returned (after_betting_action t x)

unfoldable pub after_action : Shuffler → Table → Action → Table × Option Error
after_action sh t action = after_in sh t t.extra action
