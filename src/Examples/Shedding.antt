-- ===== src/Examples/Shedding.antt =====
-- The shedding games at a table of two.
use mathlib.Core.List.Perm
use terminal_card.Base.{ℕ, ◌≡◌, refl, false, Option, none, some, List, [], ◌∷◌}
use terminal_card.Base.Int.{pos}
use terminal_card.Deck.{Card, Pile, Shuffler, new, peek, contains_card, is_suit}
use terminal_card.Game.{Player, State, Phase}
use terminal_card.Game.Cards.{table_count}
use terminal_card.Game.Shed.{open_discard}
use terminal_card.Game.Shed.Opening.{IsOpened, open_discard-IsOpened}
use terminal_card.CrazyEight
use terminal_card.CrazyEight.Laws as CrazyLaws
use terminal_card.Uno
use terminal_card.Uno.Moves
use terminal_card.Uno.Laws.Moving as UnoMoving

-- A shuffler that leaves the cards as they are.
abbrev in_order : Shuffler
in_order = record { shuffle = λ cs. cs; shuffle-perm = Perm.refl }

abbrev card : ℕ → ℕ → Card
card r s = record { rank = r; suit = s }

abbrev holder : ℕ → List Card → Player
holder n cards = record { id = n; user_id = n; name = 0; cards = cards }

-- A table of two, the first on turn.
abbrev table_of : {X : Type 0} → List Card → List Card → List Card → Option Pile → X → State X
table_of first second stock pile x = record {
  players = holder 1 first ∷ holder 2 second ∷ [];
  left_players = [];
  current_turn = pos 0;
  override_next_turn = none;
  phase = Phase.playing;
  winner = none;
  deck = new stock;
  discard = pile;
  extra = x;
}

abbrev eights_table : CrazyEight.Table
eights_table =
    table_of (card 8 2 ∷ card 5 1 ∷ []) (card 6 3 ∷ []) [] (some (new (card 4 2 ∷ card 9 1 ∷ [])))
      (some (record { passes = 1; current_suit = 1 }))

abbrev play_eight : CrazyEight.Action
play_eight = CrazyEight.Action.play_card (card 8 2) 3

play_eight_accepted : CrazyEight.validate_action eights_table play_eight ≡ none
unfolding CrazyEight.validate_action CrazyEight.validate_in CrazyEight.validate_on peek new
    CrazyEight.validate_card contains_card is_suit
play_eight_accepted = refl

crazy_apply_action-table_count_example :
    table_count (card 8 2) (CrazyEight.apply_action in_order eights_table play_eight).0
    ≡ table_count (card 8 2) eights_table
crazy_apply_action-table_count_example =
    CrazyLaws.crazy_apply_action-table_count in_order (card 8 2) eights_table play_eight
      play_eight_accepted

-- The stock is empty: the two cards that the second player draws come from below the discard pile's top.
abbrev uno_table : Uno.Table
uno_table =
    table_of (card 24 1 ∷ card 5 1 ∷ []) (card 6 3 ∷ []) []
      (some (new (card 4 2 ∷ card 3 2 ∷ card 9 1 ∷ [])))
      (some
        (record { passes = 0; current_color = 1; direction = pos 1; leaver_was_on_turn = false }))

abbrev play_draw_two : Uno.Action
play_draw_two = Uno.Action.play_card (card 24 1) 0

play_draw_two_accepted : Uno.validate_action uno_table play_draw_two ≡ none
unfolding Uno.validate_action Uno.validate_in Uno.validate_on peek new Uno.validate_card
    contains_card Uno.is_wild
play_draw_two_accepted = refl

uno_apply_action-table_count_example :
    table_count (card 3 2) (Uno.Moves.apply_action in_order uno_table play_draw_two).0
    ≡ table_count (card 3 2) uno_table
uno_apply_action-table_count_example =
    UnoMoving.uno_apply_action-table_count in_order (card 3 2) uno_table play_draw_two
      play_draw_two_accepted

-- An eight lies on top of the stock, and the five below it opens.
abbrev opening_table : CrazyEight.Table
opening_table = table_of [] [] (card 5 1 ∷ card 8 2 ∷ []) none none

open_discard-IsOpened_example :
    (r : CrazyEight.Table × Option Card) × (open_discard in_order CrazyEight.opens opening_table
      ≡ some r)
    × IsOpened CrazyEight.opens [] opening_table r
open_discard-IsOpened_example = open_discard-IsOpened in_order CrazyEight.opens opening_table refl
