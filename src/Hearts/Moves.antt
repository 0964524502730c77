-- ===== src/Hearts/Moves.antt =====
-- internal/game/hearts/rules.go: the moves, what follows them, timeouts and standings.
use terminal_card.Base.{
  ℕ, ◌+◌, Bool, true, false, not, Option, none, some, List, [], ◌∷◌, ◌==◌, ltb, if◌then◌else◌,
  length, get_elem?, map,
}
use terminal_card.Base.Int.{ℤ, pos, negsuc, ◌+ℤ◌, rem}
use terminal_card.Base.GoMap.{GoMap, get_or, put}
use terminal_card.Deck.{Card, Shuffler, contains_card, remove_one, remove_each, hearts}
use terminal_card.Game.{Player, Rules, seat}
use terminal_card.Game.Cards.{set_hand}
use terminal_card.Game.Scores.{any_score_at_least, standings_by_score}
use terminal_card.Hearts.{
  State, Table, Stage, Action, Error, cards_per_hand, cards_to_pass, pass_turn_timeout,
  hand_over_turn_timeout, start_trick, get_nil, validate_play_card, first_legal_card,
}
use terminal_card.Hearts.Tricks.{
  find_two_of_clubs, apply_all_passes, next_unpassed_seat, trick_winner, trick_points, add_score,
  score_hand, three_lowest_cards,
}
use terminal_card.Hearts.Rounds.{turn_to, begin_hand, on_game_start}

-- validatePass' loop, with the cards seen so far.
unfoldable pub validate_cards : List Card → List Card → List Card → Option Error
validate_cards hand seen [] = none
validate_cards hand seen (c ∷ cs) =
    let rest = validate_cards hand (c ∷ seen) cs in
    if contains_card c seen
    then some Error.duplicate_card
    else if not (contains_card c hand)
    then some Error.not_held
    else rest

unfoldable pub validate_pass_by : State → List Card → Option Player → Option Error
validate_pass_by x cards none = some Error.panic
validate_pass_by x cards (some p) =
    if get_nil false p.id x.passed
    then some Error.already_passed
    else validate_cards p.cards [] cards

unfoldable pub validate_pass : Table → State → Action → Option Error
validate_pass t x (Action.pass_cards cards) =
    if not (length cards == cards_to_pass)
    then some Error.wrong_count
    else validate_pass_by x cards (seat t.current_turn t.players)
validate_pass t x _ = some Error.must_pass

unfoldable pub validate_play_by : State → Card → Option Player → Option Error
validate_play_by x card none = some Error.panic
validate_play_by x card (some p) = validate_play_card x p.cards card

unfoldable pub validate_play : Table → State → Action → Option Error
validate_play t x (Action.play_card card) = validate_play_by x card (seat t.current_turn t.players)
validate_play t x _ = some Error.must_play

unfoldable pub validate_next_hand : State → Stage → Option Error
validate_next_hand x Stage.hand_over = if x.match_complete then some Error.match_over else none
validate_next_hand x _ = some Error.hand_running

unfoldable pub validate_at : Table → State → Stage → Action → Option Error
validate_at t x stage Action.next_hand = validate_next_hand x stage
validate_at t x Stage.passing action = validate_pass t x action
validate_at t x Stage.trick_play action = validate_play t x action
validate_at t x Stage.hand_over action = some Error.hand_is_over

unfoldable pub validate_in : Table → Option State → Action → Option Error
validate_in t none action = some Error.invalid_state
validate_in t (some x) action = validate_at t x x.stage action

unfoldable pub validate_action : Table → Action → Option Error
validate_action t action = validate_in t t.extra action

-- ApplyAction's pass by the player at seat i; a write to a nil map panics.
unfoldable pub apply_pass :
    Table
    → State
    → ℕ
    → Player
    → List Card
    → Option (GoMap (List Card))
    → Option (GoMap Bool)
    → Table × Option Error
apply_pass t x i p cards (some pending) (some passed) = (
  record t {
    players = set_hand i (remove_each p.cards cards) t.players;
    extra = some (record x {
      pending_passes = some (put p.id cards pending);
      passed = some (put p.id true passed);
    });
  },
  none,
)
apply_pass t x i p cards _ _ = (t, some Error.panic)

unfoldable pub lead : ℤ → Card → State → State
lead turn card x =
    if length x.trick_cards == 0 then record x { led_suit = card.suit; trick_leader = turn } else x

unfoldable pub lay_card : ℕ → Card → State → State
lay_card pid card x = record x {
  trick_cards = put pid card x.trick_cards;
  hearts_broken = if card.suit == hearts then true else x.hearts_broken;
}

unfoldable pub apply_play : Table → State → ℕ → Player → Card → Table × Option Error
apply_play t x i p card = (
  record t {
    players = set_hand i (remove_one p.cards card) t.players;
    extra = some (lay_card p.id card (lead (pos i) card (start_trick x)));
  },
  none,
)

unfoldable pub apply_by : Table → State → ℕ → Player → Action → Table × Option Error
apply_by t x i p (Action.pass_cards cards) = apply_pass t x i p cards x.pending_passes x.passed
apply_by t x i p (Action.play_card card) = apply_play t x i p card
apply_by t x i p Action.next_hand = (t, none)
apply_by t x i p Action.foreign = (t, none)

-- Whether ApplyAction reads the seat on turn.
unfoldable pub is_card_action : Action → Bool
is_card_action (Action.pass_cards cards) = true
is_card_action (Action.play_card card) = true
is_card_action Action.next_hand = false
is_card_action Action.foreign = false

unfoldable pub apply_at : Table → State → ℤ → Action → Table × Option Error
apply_at t x (negsuc i) action = if is_card_action action then (t, some Error.panic) else (t, none)
apply_at t x (pos i) action = elim (get_elem? t.players i) [
  | none ↦ if is_card_action action then (t, some Error.panic) else (t, none)
  | some p ↦ apply_by t x i p action
]

unfoldable pub apply_in : Table → Option State → Action → Table × Option Error
apply_in t none action = (t, some Error.invalid_state)
apply_in t (some x) action = apply_at t x t.current_turn action

unfoldable pub apply_action : Table → Action → Table × Option Error
apply_action t action = apply_in t t.extra action

unfoldable pub length_nil : Option (GoMap Bool) → ℕ
length_nil none = 0
length_nil (some m) = length m

unfoldable pub pass_on : Table → Option ℤ → Table × Option Error
pass_on t none = (t, some Error.panic)
pass_on t (some next) = (record t { override_next_turn = some next }, none)

-- afterPass once everybody has passed.
unfoldable pub finish_passes : Table → State → Table
finish_passes t x =
    let ps = apply_all_passes t.players x in
    let y = record x { stage = Stage.trick_play; pending_passes = none; passed = none } in
    turn_to (pos (find_two_of_clubs ps)) (record t { players = ps; extra = some y })

unfoldable pub after_pass : Table → State → Table × Option Error
after_pass t x =
    if ltb (length_nil x.passed) (length t.players)
    then pass_on t (next_unpassed_seat t.players x t.current_turn)
    else (finish_passes t x, none)

-- The end of a hand, once its points are counted.
unfoldable pub finish_hand : Table → State → Table
finish_hand t x =
    let scored = score_hand x t.players in
    let y = record scored { stage = Stage.hand_over; hand_complete = true } in
    if any_score_at_least y.cumulative_scores y.target_score
    then record t { extra = some (record y { match_complete = true }); override_next_turn = none }
    else turn_to (rem (y.dealer_index +ℤ pos 1) (length t.players)) (record t { extra = some y })

-- afterPlay once the trick is full, for the player who won it.
unfoldable pub win_trick : Table → State → ℤ → Option Player → Table × Option Error
win_trick t x i none = (t, some Error.panic)
win_trick t x i (some winner) =
    let y = record x {
      hand_points = add_score winner.id (trick_points x.trick_cards) x.hand_points;
      last_trick_winner = some winner.id;
      tricks_played = x.tricks_played + 1;
      trick_complete = true;
    } in
    (
      if ltb y.tricks_played cards_per_hand
          then turn_to i (record t { extra = some y })
          else finish_hand t y,
      none,
    )

unfoldable pub after_play : Table → State → Table × Option Error
after_play t x =
    if ltb (length x.trick_cards) (length t.players)
    then (t, none)
    else win_trick t x (trick_winner t.players x) (seat (trick_winner t.players x) t.players)

unfoldable pub after_in : Shuffler → Table → Option State → Action → Table × Option Error
after_in sh t none action = (t, some Error.invalid_state)
after_in sh t (some x) (Action.pass_cards cards) = after_pass t x
after_in sh t (some x) (Action.play_card card) = after_play t x
after_in sh t (some x) Action.next_hand = begin_hand sh t x t.current_turn
after_in sh t (some x) Action.foreign = (t, none)

unfoldable pub after_action : Shuffler → Table → Action → Table × Option Error
after_action sh t action = after_in sh t t.extra action

unfoldable pub wins : Option State → Bool
wins none = false
wins (some x) = x.match_complete

unfoldable pub score_in : Option State → Player → ℕ
score_in none p = 0
score_in (some x) p =
    if x.hand_complete
    then get_or 0 p.id x.cumulative_scores
    else get_or 0 p.id x.cumulative_scores + get_or 0 p.id x.hand_points

unfoldable pub standing_score : Table → Player → ℕ
standing_score t p = score_in t.extra p

unfoldable pub standings_in : Table → Option State → List (Option Player)
standings_in t none = []
standings_in t (some x) = map some (standings_by_score t.players (standing_score t))

unfoldable pub pass_timeout : Option Player → Option Action
pass_timeout none = none
pass_timeout (some p) = some (Action.pass_cards (three_lowest_cards p.cards))

unfoldable pub legal_action : Option Card → Option Action
legal_action none = none
legal_action (some c) = some (Action.play_card c)

unfoldable pub play_timeout : State → Option Player → Option Action
play_timeout x none = none
play_timeout x (some p) = legal_action (first_legal_card x p)

unfoldable pub timeout_at : Table → State → Stage → Option Action
timeout_at t x Stage.passing = pass_timeout (seat t.current_turn t.players)
timeout_at t x Stage.trick_play = play_timeout x (seat t.current_turn t.players)
timeout_at t x Stage.hand_over = if x.match_complete then none else some Action.next_hand

unfoldable pub timeout_in : Table → Option State → Option Action
timeout_in t none = none
timeout_in t (some x) = timeout_at t x x.stage

unfoldable pub turn_timeout_in : Option State → ℤ
turn_timeout_in none = pos 0
turn_timeout_in (some x) = elim x.stage [
  | Stage.passing ↦ pos pass_turn_timeout
  | Stage.trick_play ↦ pos 0
  | Stage.hand_over ↦ pos hand_over_turn_timeout
]

unfoldable pub leave_in : Table → Option State → Table
leave_in t none = t
leave_in t (some x) = record t { extra = some (record x { match_complete = true }) }

-- The Rules of the package.
abbrev pub hearts_rules : Shuffler → Rules (Option State) Action Error
hearts_rules sh = record {
  initial_deal_count = pos 0;
  on_game_start = on_game_start sh;
  validate_action = validate_action;
  apply_action = apply_action;
  after_action = after_action sh;
  check_win_condition = λ t. wins t.extra;
  standings = λ t. standings_in t t.extra;
  timeout_action = some (λ t. timeout_in t t.extra);
  turn_timeout = some (λ t. turn_timeout_in t.extra);
  leave_handler =
      some
        (record { on_player_leave = λ t pid. leave_in t t.extra; after_player_removed = λ t i. t });
  standing_score = some (λ t p. pos (standing_score t p));
}
