-- ===== src/Examples/Tricks.antt =====
-- Hearts: a void player on the first trick, and the passes of a table of four.
use terminal_card.Base.{ℕ, ◌+◌, ◌≡◌, refl, true, none, some, List, [], ◌∷◌, arith}
use terminal_card.Base.Int.{pos}
use terminal_card.Deck.{Card}
use terminal_card.Game.{Player}
use terminal_card.Game.Cards.{held}
use terminal_card.Hearts.{
  State, PassDirection, Stage, first_legal_card, validate_play_card, leading_trick,
}
use terminal_card.Hearts.Rounds.{first_state}
use terminal_card.Hearts.Tricks.{apply_all_passes}
use terminal_card.Hearts.Legal.{is_opening_sound, first_legal_card_found}
use terminal_card.Hearts.Passing.{pending_count, apply_all_passes-held}

abbrev card : ℕ → ℕ → Card
card r s = record { rank = r; suit = s }

abbrev holder : ℕ → List Card → Player
holder n cards = record { id = n; user_id = n; name = 0; cards = cards }

abbrev seats : List Player
seats =
    holder 1 (card 2 1 ∷ [])
    ∷ holder 2 (card 12 1 ∷ card 3 2 ∷ card 4 3 ∷ [])
    ∷ holder 3 []
    ∷ holder 4 (card 2 4 ∷ [])
    ∷ []

abbrev void_hand : Player
void_hand = holder 2 (card 12 1 ∷ card 3 2 ∷ card 4 3 ∷ [])

-- The two of clubs was led.
abbrev first_trick : State
unfolding first_state
first_trick = record (first_state seats) {
  stage = Stage.trick_play;
  led_suit = 4;
  trick_cards = (4, card 2 4) ∷ [];
  trick_leader = pos 3;
}

void_hand_sound : is_opening_sound first_trick void_hand.cards ≡ true
unfolding is_opening_sound first_trick leading_trick
void_hand_sound = refl

first_legal_card_found_example :
    (c : Card) × (first_legal_card first_trick void_hand ≡ some c)
    × (validate_play_card first_trick void_hand.cards c ≡ none)
first_legal_card_found_example =
    first_legal_card_found first_trick void_hand (omega arith) void_hand_sound

abbrev passing_right : State
unfolding first_state
passing_right = record (first_state seats) {
  pass_direction = PassDirection.pass_right;
  pending_passes = some ((1, card 9 3 ∷ []) ∷ (4, card 10 3 ∷ []) ∷ []);
}

apply_all_passes-held_example :
    held (card 9 3) (apply_all_passes seats passing_right)
    ≡ held (card 9 3) seats + pending_count (card 9 3) seats passing_right
apply_all_passes-held_example = apply_all_passes-held (card 9 3) seats passing_right
