-- ===== src/Hearts/Rounds.antt =====
-- internal/game/hearts/rules.go: the start of the match and of a hand.
use terminal_card.Base.{
  ℕ, zero, suc, ◌+◌, ◌-◌, ◌%◌, Bool, true, false, not, Option, none, some, List, [], ◌∷◌, ◌==◌,
  if◌then◌else◌, length,
}
use terminal_card.Base.Int.{ℤ, pos}
use terminal_card.Base.GoMap.{GoMap, put}
use terminal_card.Deck.{Card, Pile, Shuffler, shuffle_pile, draw_n_cards, standard_deck}
use terminal_card.Deck
use terminal_card.Game.{Player}
use terminal_card.Hearts.{
  State, Table, Stage, PassDirection, Error, player_count, cards_per_hand, default_target_score,
  no_suit, reset_hand_state,
}
use terminal_card.Hearts.Tricks.{find_two_of_clubs}

-- PassDirection of a number in 0..3.
unfoldable pub direction_of : ℕ → PassDirection
direction_of zero = PassDirection.pass_left
direction_of (suc zero) = PassDirection.pass_right
direction_of (suc (suc zero)) = PassDirection.pass_across
direction_of (suc (suc (suc n))) = PassDirection.pass_none

-- beginHand's deal: the pile, the players, and whether the cards sufficed.
unfoldable pub deal_to :
    (Pile → Pile × List Player × Bool)
    → Player
    → List Player
    → Pile × Option (List Card)
    → Pile × List Player × Bool
deal_to more p ps (left, none) = (left, p ∷ ps, false)
deal_to more p ps (left, some hand) =
    let (pile, rest, enough) = more left in (pile, record p { cards = hand } ∷ rest, enough)

unfoldable pub deal_hands : List Player → Pile → Pile × List Player × Bool
deal_hands [] pile = (pile, [], true)
deal_hands (p ∷ ps) pile = deal_to (deal_hands ps) p ps (draw_n_cards pile (pos cards_per_hand))

-- state.CurrentTurn and state.OverrideNextTurn set to the same seat.
unfoldable pub turn_to : ℤ → Table → Table
turn_to i t = record t { current_turn = i; override_next_turn = some i }

unfoldable pub open_hand : ℤ → State → PassDirection → Table → Table
open_hand dealer x PassDirection.pass_none t =
    let y = record x { pass_direction = PassDirection.pass_none; stage = Stage.trick_play } in
    turn_to (pos (find_two_of_clubs t.players)) (record t { extra = some y })
open_hand dealer x direction t =
    let y = record x {
      pass_direction = direction;
      stage = Stage.passing;
      pending_passes = some [];
      passed = some [];
    } in
    turn_to dealer (record t { extra = some y })

-- beginHand once the cards are dealt.
unfoldable pub begin_dealt : ℤ → State → Table → Pile × List Player × Bool → Table × Option Error
begin_dealt dealer x t (pile, ps, false) =
    (record t { deck = pile; players = ps; extra = some x }, some Error.not_enough_cards)
begin_dealt dealer x t (pile, ps, true) = (
  open_hand dealer x (direction_of ((x.hand_number - 1) % 4))
      (record t { deck = pile; players = ps }),
  none,
)

unfoldable pub begin_hand : Shuffler → Table → State → ℤ → Table × Option Error
begin_hand sh t x dealer =
    let y = reset_hand_state x in
    let z = record y { hand_number = y.hand_number + 1; dealer_index = dealer } in
    begin_dealt dealer z t (deal_hands t.players (shuffle_pile sh (Deck.new standard_deck)))

unfoldable pub zero_scores : List Player → GoMap ℕ → GoMap ℕ
zero_scores [] scores = scores
zero_scores (p ∷ ps) scores = zero_scores ps (put p.id 0 scores)

-- The State that OnGameStart makes: Go's zero values but for the scores and the target.
unfoldable pub first_state : List Player → State
first_state ps = record {
  stage = Stage.passing;
  pass_direction = PassDirection.pass_left;
  pending_passes = none;
  passed = none;
  led_suit = no_suit;
  trick_cards = [];
  trick_complete = false;
  trick_leader = pos 0;
  hearts_broken = false;
  tricks_played = 0;
  hand_points = [];
  cumulative_scores = zero_scores ps [];
  hand_number = 0;
  dealer_index = pos 0;
  target_score = default_target_score;
  hand_complete = false;
  match_complete = false;
  last_trick_winner = none;
}

unfoldable pub on_game_start : Shuffler → Table → Table × Option Error
on_game_start sh t =
    if not (length t.players == player_count)
    then (t, some Error.wrong_player_count)
    else let x = first_state t.players in
      begin_hand sh (record t { extra = some x }) x t.current_turn
