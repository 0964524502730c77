-- ===== src/Hearts.antt =====
-- internal/game/hearts: the match state (state.go), the tricks (trick.go) and what a player may do. A
-- suit or rank is its uint8 value, a player's id a number. A map that may be nil is an Option.
pub mod Tricks
pub mod Rounds
pub mod Moves
pub mod Legal
pub mod Passing
pub mod Laws
use terminal_card.Base.{
  ℕ, zero, suc, ◌+◌, ◌-◌, ◌%◌, ◌≡◌, Bool, true, false, ◌&&◌, ◌||◌, not, Option, none, some, List,
  [], ◌∷◌, ◌++◌, ◌==◌, ltb, if◌then◌else◌, length,
}
use terminal_card.Base.Int.{ℤ, pos, negsuc}
use terminal_card.Base.GoMap.{GoMap, get_or}
use terminal_card.Deck.{Card, card_eq, contains_card, two, spades, hearts, clubs}
use terminal_card.Game.{Player}
use terminal_card.Game

pub data Stage : Type 0 where
  passing trick_play hand_over : Stage

pub data PassDirection : Type 0 where
  pass_left pass_right pass_across pass_none : PassDirection

abbrev pub player_count : ℕ
player_count = 4

abbrev pub cards_per_hand : ℕ
cards_per_hand = 13

abbrev pub cards_to_pass : ℕ
cards_to_pass = 3

abbrev pub penalty_points_total : ℕ
penalty_points_total = 26

abbrev pub default_target_score : ℕ
default_target_score = 100

-- Nanoseconds, as the next one.
abbrev pub pass_turn_timeout : ℕ
pass_turn_timeout = 45000000000

abbrev pub hand_over_turn_timeout : ℕ
hand_over_turn_timeout = 60000000000

abbrev pub no_suit : ℕ
no_suit = 0

abbrev pub two_of_clubs : Card
two_of_clubs = record { rank = two; suit = clubs }

abbrev pub queen_of_spades : Card
queen_of_spades = record { rank = 12; suit = spades }

pub record State : Type 0 where
  pub stage : Stage
  pub pass_direction : PassDirection
  pub pending_passes : Option (GoMap (List Card))
  pub passed : Option (GoMap Bool)
  pub led_suit : ℕ
  pub trick_cards : GoMap Card
  pub trick_complete : Bool
  pub trick_leader : ℤ
  pub hearts_broken : Bool
  pub tricks_played : ℕ
  pub hand_points : GoMap ℕ
  pub cumulative_scores : GoMap ℕ
  pub hand_number : ℕ
  pub dealer_index : ℤ
  pub target_score : ℕ
  pub hand_complete : Bool
  pub match_complete : Bool
  pub last_trick_winner : Option ℕ

abbrev pub Table : Type 0
Table = Game.State (Option State)

pub data Action : Type 0 where
  pass_cards : List Card → Action
  play_card : Card → Action
  next_hand foreign : Action

pub data Error : Type 0 where
  invalid_state wrong_player_count not_enough_cards hand_running match_over must_pass wrong_count :
      Error
  already_passed duplicate_card not_held must_play hand_is_over open_with_two_of_clubs : Error
  hearts_unbroken must_follow_suit no_points_on_trick_one panic : Error

unfoldable pub leading_trick : State → Bool
leading_trick x = x.trick_complete || (length x.trick_cards == 0)

unfoldable pub start_trick : State → State
start_trick x =
    if not x.trick_complete
    then x
    else record x { trick_cards = []; led_suit = no_suit; trick_complete = false }

unfoldable pub reset_hand_state : State → State
reset_hand_state x = record x {
  stage = Stage.passing;
  pass_direction = PassDirection.pass_left;
  pending_passes = none;
  passed = none;
  led_suit = no_suit;
  trick_cards = [];
  trick_complete = false;
  trick_leader = pos 0;
  hearts_broken = false;
  tricks_played = 0;
  hand_points = [];
  hand_complete = false;
  last_trick_winner = none;
}

-- A read of a map that may be nil.
unfoldable pub get_nil {ℓ} : {V : Type ℓ} → V → ℕ → Option (GoMap V) → V
get_nil d k none = d
get_nil d k (some m) = get_or d k m

unfoldable pub hand_has_suit : List Card → ℕ → Bool
hand_has_suit [] suit = false
hand_has_suit (c ∷ cs) suit = (c.suit == suit) || hand_has_suit cs suit

unfoldable pub has_other_than_hearts : List Card → Bool
has_other_than_hearts [] = false
has_other_than_hearts (c ∷ cs) = not (c.suit == hearts) || has_other_than_hearts cs

unfoldable pub only_hearts : List Card → Bool
only_hearts hand = ltb 0 (length hand) && not (has_other_than_hearts hand)

unfoldable pub is_penalty_card : Card → Bool
is_penalty_card c = (c.suit == hearts) || card_eq c queen_of_spades

unfoldable pub has_non_penalty_card : List Card → Bool
has_non_penalty_card [] = false
has_non_penalty_card (c ∷ cs) = not (is_penalty_card c) || has_non_penalty_card cs

unfoldable pub validate_play_card : State → List Card → Card → Option Error
validate_play_card x hand card =
    let leading = leading_trick x in
    let first_trick = x.tricks_played == 0 in
    let opening_lead = leading && first_trick in
    let unbroken_heart_lead =
      leading && (card.suit == hearts) && not x.hearts_broken && not (only_hearts hand) in
    let revoke = not leading && not (card.suit == x.led_suit) && hand_has_suit hand x.led_suit in
    let dumping_points_on_trick_one =
      first_trick && is_penalty_card card && has_non_penalty_card hand in
    if not (contains_card card hand)
    then some Error.not_held
    else if opening_lead && not (card_eq card two_of_clubs)
    then some Error.open_with_two_of_clubs
    else if unbroken_heart_lead
    then some Error.hearts_unbroken
    else if revoke
    then some Error.must_follow_suit
    else if dumping_points_on_trick_one
    then some Error.no_points_on_trick_one
    else none

unfoldable pub is_legal : State → List Card → Card → Bool
is_legal x hand c = elim (validate_play_card x hand c) [ none ↦ true | some e ↦ false ]

-- firstLegalCard's loop, over the cards of the hand from some point on.
unfoldable pub first_legal_from : State → List Card → List Card → Option Card
first_legal_from x hand [] = none
first_legal_from x hand (c ∷ cs) =
    let rest = first_legal_from x hand cs in if is_legal x hand c then some c else rest

unfoldable pub first_legal_card : State → Player → Option Card
first_legal_card x p = first_legal_from x p.cards p.cards
