-- ===== src/Poker/Leaving.antt =====
-- internal/game/poker/rules.go: the hooks for a leaver and for an absent player, and the package's
-- rules as the engine takes them.
use terminal_card.Base.{
  ℕ, zero, suc, ◌+◌, ◌-◌, ◌%◌, Bool, true, false, not, ◌||◌, Option, none, some, [], ◌==◌, ltb,
  if◌then◌else◌, get_elem?, length, map, min,
}
use terminal_card.Base.Int.{ℤ, pos, negsuc}
use terminal_card.Base.GoMap.{put}
use terminal_card.Deck.{Shuffler}
use terminal_card.Game.{Rules, seat}
use terminal_card.Poker.{State, Table, Error, is_all_in, to_call, cannot_act, contenders}
use terminal_card.Poker.Betting.{Action}
use terminal_card.Poker.Pots.{refund_contributions}
use terminal_card.Poker.Streets.{
  Outcome, betting_round_complete, next_to_act, first_to_act_postflop, settle_and_advance,
}
use terminal_card.Poker.Hands.{finish_hand}
use terminal_card.Poker.Standings.{rank_players, standing_score}
use terminal_card.Poker.Match.{
  returned, set_turn, on_game_start, validate_action, apply_action, win_uncontested, sole,
  after_action,
}

unfoldable pub fold_leaver : State → ℕ → State
fold_leaver x pid = if x.hand_complete || is_all_in x pid then x else record x {
  folded = put pid true x.folded;
  acted_this_round = put pid true x.acted_this_round;
}

unfoldable pub leave_in : Table → Option State → ℕ → Table
leave_in t none pid = t
leave_in t (some x) pid = record t { extra = some (fold_leaver x pid) }

unfoldable pub on_player_leave : Table → ℕ → Table
on_player_leave t pid = leave_in t t.extra pid

-- adjustSeatIndex, where `n_after` is not 0.
unfoldable pub adjust_seat_index : ℕ → ℕ → ℕ → ℕ
adjust_seat_index place removed zero = 0
adjust_seat_index place removed (suc n) =
    min
      (if ltb removed place
        then place - 1
        else if place == removed
        then (removed + n) % suc n
        else place)
      n

unfoldable pub adjust_seats : ℕ → ℕ → State → State
adjust_seats removed n x = record x {
  dealer_index = adjust_seat_index x.dealer_index removed n;
  sb_index = adjust_seat_index x.sb_index removed n;
  bb_index = adjust_seat_index x.bb_index removed n;
}

-- AfterPlayerRemoved once the round is over: the hand goes on, ends, or is unwound.
unfoldable pub settle_after_leave : Outcome → Outcome
settle_after_leave o = elim o.error [
  | some e ↦ finish_hand o.table (refund_contributions o.match)
  | none ↦
      if o.match.hand_complete
      then finish_hand o.table o.match
      else record o { table = set_turn (first_to_act_postflop o.table o.match) o.table }
]

-- The seat on turn keeps it if it can act. A turn out of range, at which Go panics, is kept.
unfoldable pub actor_after_leave : Table → State → ℤ
actor_after_leave t x = elim t.current_turn [
  | negsuc i ↦ negsuc i
  | pos i ↦ elim (get_elem? t.players i) [
    | none ↦ pos i
    | some p ↦
        if cannot_act x p.id
        then elim (next_to_act t.players x i) [ none ↦ negsuc 0 | some j ↦ pos j ]
        else pos i
  ]
]

unfoldable pub settle_leave : Table → State → Outcome
settle_leave t x = if x.hand_complete then finish_hand t x else elim (sole (contenders t x)) [
  | some p ↦ win_uncontested p t x
  | none ↦
      if betting_round_complete x t.players
      then settle_after_leave (settle_and_advance t x)
      else record { table = set_turn (actor_after_leave t x) t; match = x; error = none }
]

unfoldable pub removed_in : Table → Option State → ℕ → Table
removed_in t none removed = t
removed_in t (some x) removed =
    if length t.players == 0
    then t
    else (returned (settle_leave t (adjust_seats removed (length t.players) x))).0

unfoldable pub after_player_removed : Table → ℕ → Table
after_player_removed t removed = removed_in t t.extra removed

unfoldable pub betting_timeout : Table → State → Option Action
betting_timeout t x = elim (seat t.current_turn t.players) [
  | none ↦ none
  | some p ↦ if to_call x p.id == 0 then some Action.check else some Action.fold
]

unfoldable pub timeout_action : Table → Option Action
timeout_action t = elim t.extra [
  | none ↦ none
  | some x ↦
      if x.hand_complete
      then (if x.match_complete then none else some Action.next_hand)
      else betting_timeout t x
]

abbrev deal_turn_timeout : ℤ
deal_turn_timeout = pos 60000000000

unfoldable pub turn_timeout : Table → ℤ
turn_timeout t = elim t.extra [
  | none ↦ pos 0
  | some x ↦ if not x.hand_complete || x.match_complete then pos 0 else deal_turn_timeout
]

unfoldable pub check_win_condition : Table → Bool
check_win_condition t = elim t.extra [ none ↦ false | some x ↦ x.match_complete ]

-- The Rules of the package; `sh` shuffles its decks.
abbrev pub poker_rules : Shuffler → Rules (Option State) Action Error
poker_rules sh = record {
  initial_deal_count = pos 0;
  on_game_start = on_game_start sh;
  validate_action = validate_action;
  apply_action = apply_action;
  after_action = after_action sh;
  check_win_condition = check_win_condition;
  standings = λ t. elim t.extra [ none ↦ [] | some x ↦ map some (rank_players t x) ];
  timeout_action = some timeout_action;
  turn_timeout = some turn_timeout;
  leave_handler =
      some
        (record { on_player_leave = on_player_leave; after_player_removed = after_player_removed });
  standing_score = some (λ t p. elim t.extra [ none ↦ pos 0 | some x ↦ standing_score t x p ]);
}
