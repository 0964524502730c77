-- ===== src/Uno/Moves.antt =====
-- internal/game/uno/rules.go: the opening card, the moves, and the leave hooks.
use terminal_card.Base.{
  ℕ, ◌+◌, Bool, false, ◌||◌, not, Option, none, some, [], ◌∷◌, ◌==◌, ltb, if◌then◌else◌, length,
  get_elem?, map,
}
use terminal_card.Base.Int.{ℤ, pos, negsuc, ◌+ℤ◌, ◌-ℤ◌, eqb_ℤ, ltb_ℤ}
use terminal_card.Deck.{Card, Pile, Shuffler, add_card, remove_one}
use terminal_card.Engine.{clamp_turn}
use terminal_card.Game.{Player, Rules, index_of}
use terminal_card.Game.Cards.{set_hand}
use terminal_card.Game.Shed.{
  return_hand, hand_empty_or_all_passed, shed_score, shed_standings, open_discard,
}
use terminal_card.Uno.{
  State, Table, Action, Error, skip, reverse_rank, draw_two, wild_draw_four, is_wild, advance,
  draw_cards_into, validate_action,
}

-- state.CurrentTurn and state.OverrideNextTurn set to the same seat, with the new Extra.
unfoldable pub set_first : ℤ → Table → State → Table
set_first i t x = record t { current_turn = i; override_next_turn = some i; extra = some x }

-- A draw that came up empty is a pass.
unfoldable pub charge_pass : Bool → State → State
charge_pass drew x = if drew then x else record x { passes = x.passes + 1 }

-- DrawTwo opens: the first seat draws and is skipped.
unfoldable pub open_draw_two : Table × Bool → State → Table
open_draw_two (t, drew) x = let y = charge_pass drew x in set_first (advance t y 1) t y

unfoldable pub apply_opening_card : Shuffler → Table → State → Card → Table
apply_opening_card sh t x card =
    if card.rank == skip
    then set_first (advance t x 1) t x
    else if card.rank == draw_two
    then open_draw_two (draw_cards_into sh t t.current_turn 2) x
    else if card.rank == reverse_rank
    then (if length t.players == 2
        then set_first (advance t x 1) t x
        else set_first t.current_turn t (record x { direction = negsuc 0 }))
    else set_first t.current_turn t x

unfoldable pub opens : Card → Bool
opens c = not (is_wild c.rank)

-- OnGameStart after OpenDiscard, which never runs out of its fuel.
unfoldable pub opened :
    Shuffler → State → Option (Table × Option Card) → Table → Table × Option Error
opened sh x none t = (t, some Error.panic)
opened sh x (some (u, none)) t = (u, some Error.not_enough_cards)
opened sh x (some (u, some top)) t =
    (apply_opening_card sh u (record x { current_color = top.suit }) top, none)

abbrev pub fresh_state : State
fresh_state = record {
  passes = 0;
  current_color = 0;
  direction = pos 1;
  leaver_was_on_turn = false;
}

unfoldable pub on_game_start : Shuffler → Table → Table × Option Error
on_game_start sh t =
    let fresh = record t { extra = some fresh_state } in
    opened sh fresh_state (open_discard sh opens fresh) fresh

unfoldable pub set_next : ℤ → Table → State → Table
set_next i t x = record t { override_next_turn = some i; extra = some x }

unfoldable pub apply_reverse : Table → State → Table
apply_reverse t x =
    if length t.players == 2
    then set_next t.current_turn t x
    else let y = record x { direction = pos 0 -ℤ x.direction } in set_next (advance t y 1) t y

unfoldable pub forced : Table × Bool → State → Table
forced (t, drew) x = let y = charge_pass drew x in set_next (advance t y 2) t y

unfoldable pub apply_forced_draw : Shuffler → Table → State → ℕ → Table
apply_forced_draw sh t x n = forced (draw_cards_into sh t (advance t x 1) n) x

unfoldable pub voluntary : Table × Bool → State → Table
voluntary (t, drew) x =
    let y = record x { passes = if drew then 0 else x.passes + 1 } in set_next (advance t y 1) t y

unfoldable pub apply_voluntary_draw : Shuffler → Table → State → Table
apply_voluntary_draw sh t x = voluntary (draw_cards_into sh t t.current_turn 1) x

-- The switch of ApplyAction on the rank that was played.
unfoldable pub after_rank : Shuffler → Table → State → ℕ → Table
after_rank sh t x rank =
    if rank == skip
    then set_next (advance t x 2) t x
    else if rank == reverse_rank
    then apply_reverse t x
    else if rank == draw_two
    then apply_forced_draw sh t x 2
    else if rank == wild_draw_four
    then apply_forced_draw sh t x 4
    else set_next (advance t x 1) t x

unfoldable pub play_by :
    Shuffler → Table → State → ℕ → Player → Card → ℕ → Option Pile → Table × Option Error
play_by sh t x i p card chosen none = (t, some Error.panic)
play_by sh t x i p card chosen (some d) = (
  after_rank sh
      (record t {
        players = set_hand i (remove_one p.cards card) t.players;
        discard = some (add_card d (card ∷ []));
      })
      (record x { passes = 0; current_color = if is_wild card.rank then chosen else card.suit })
      card.rank,
  none,
)

unfoldable pub play_at : Shuffler → Table → State → ℤ → Card → ℕ → Table × Option Error
play_at sh t x (negsuc i) card chosen = (t, some Error.panic)
play_at sh t x (pos i) card chosen = elim (get_elem? t.players i) [
  | none ↦ (t, some Error.panic)
  | some p ↦ play_by sh t x i p card chosen t.discard
]

unfoldable pub apply_in : Shuffler → Table → Option State → Action → Table × Option Error
apply_in sh t none action = (t, some Error.invalid_state)
apply_in sh t (some x) (Action.play_card card chosen) = play_at sh t x t.current_turn card chosen
apply_in sh t (some x) Action.draw_card = (apply_voluntary_draw sh t x, none)
apply_in sh t (some x) Action.foreign = (t, none)

unfoldable pub apply_action : Shuffler → Table → Action → Table × Option Error
apply_action sh t action = apply_in sh t t.extra action

unfoldable pub wins : Table → Option State → Bool
wins t none = false
wins t (some x) = hand_empty_or_all_passed t.players x.passes

-- slices.IndexFunc, -1 for nobody.
unfoldable pub index_or_minus_one : Option ℕ → ℤ
index_or_minus_one none = negsuc 0
index_or_minus_one (some i) = pos i

unfoldable pub leave_in : Shuffler → Table → Option State → ℕ → Table
leave_in sh t none pid = t
leave_in sh t (some x) pid =
    return_hand sh
      (record t {
        extra = some (record x {
          passes = 0;
          leaver_was_on_turn = eqb_ℤ t.current_turn (index_or_minus_one (index_of pid t.players));
        });
      })
      pid

unfoldable pub on_player_leave : Shuffler → Table → ℕ → Table
on_player_leave sh t pid = leave_in sh t t.extra pid

unfoldable pub removed_in : Table → Option State → ℕ → Table
removed_in t none removed = t
removed_in t (some x) removed =
    let y = record x { leaver_was_on_turn = false } in
    if not x.leaver_was_on_turn || not (ltb_ℤ x.direction (pos 0)) || ltb (length t.players) 2
    then record t { extra = some y }
    else set_first (clamp_turn (pos removed +ℤ negsuc 0) (length t.players)) t y

unfoldable pub after_player_removed : Table → ℕ → Table
after_player_removed t removed = removed_in t t.extra removed

-- The Rules of the package.
abbrev pub uno_rules : Shuffler → Rules (Option State) Action Error
uno_rules sh = record {
  initial_deal_count = pos 7;
  on_game_start = on_game_start sh;
  validate_action = validate_action;
  apply_action = apply_action sh;
  after_action = λ t a. (t, none);
  check_win_condition = λ t. wins t t.extra;
  standings = λ t. map some (shed_standings t.players);
  timeout_action = some (λ t. some Action.draw_card);
  turn_timeout = none;
  leave_handler = some (record {
    on_player_leave = on_player_leave sh;
    after_player_removed = after_player_removed;
  });
  standing_score = some (λ t p. pos (shed_score p));
}
