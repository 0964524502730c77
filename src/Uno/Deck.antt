-- ===== src/Uno/Deck.antt =====
-- internal/game/uno/deck.go: the 108 cards.
use terminal_card.Base.{ℕ, zero, suc, List, [], ◌∷◌, ◌++◌}
use terminal_card.Deck.{Card, spades, hearts, diamonds, clubs}
use terminal_card.Uno.{zero_rank, one_rank, skip, reverse_rank, draw_two, wild, wild_draw_four}

-- Two cards of each rank in one color.
unfoldable pub two_of_each : ℕ → List ℕ → List Card
two_of_each color [] = []
two_of_each color (r ∷ rs) =
    record { rank = r; suit = color } ∷ record { rank = r; suit = color } ∷ two_of_each color rs

unfoldable pub color_cards : List ℕ → List Card
unfolding two_of_each
color_cards [] = []
color_cards (color ∷ colors) =
    (record { rank = zero_rank; suit = color }
        ∷ two_of_each color (one_rank ∷ 2 ∷ 3 ∷ 4 ∷ 5 ∷ 6 ∷ 7 ∷ 8 ∷ 9 ∷ [])
      ++ two_of_each color (skip ∷ reverse_rank ∷ draw_two ∷ []))
    ++ color_cards colors

unfoldable pub wild_cards : ℕ → List Card
wild_cards zero = []
wild_cards (suc n) =
    record { rank = wild; suit = 0 } ∷ record { rank = wild_draw_four; suit = 0 } ∷ wild_cards n

unfoldable pub initial_deck : List Card
unfolding color_cards wild_cards
initial_deck = color_cards (hearts ∷ diamonds ∷ clubs ∷ spades ∷ []) ++ wild_cards 4
