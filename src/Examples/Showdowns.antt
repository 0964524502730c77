-- ===== src/Examples/Showdowns.antt =====
-- internal/game/poker/evaluator.go at two hands of seven cards.
use terminal_card.Base.{ℕ, ◌≡◌, List, [], ◌∷◌, ltb, refl, true}
use terminal_card.Deck.{Card}
use terminal_card.Poker.Evaluator.{evaluate_hand, classify_hand}
use terminal_card.Poker.Scores.{comes_before}
use terminal_card.Poker.Scores.Order.{ltb-evaluate_hand}

abbrev card : ℕ → ℕ → Card
card rank suit = record { rank = rank; suit = suit }

-- Two pairs, kings and nines, with a queen.
abbrev two_pairs : List Card
two_pairs = card 13 1 ∷ card 13 2 ∷ card 9 3 ∷ card 9 4 ∷ card 12 1 ∷ card 2 2 ∷ card 4 3 ∷ []

-- A straight from five to nine.
abbrev straight_hand : List Card
straight_hand = card 5 1 ∷ card 6 2 ∷ card 7 3 ∷ card 8 4 ∷ card 9 1 ∷ card 13 2 ∷ card 13 3 ∷ []

two_pairs_lose : ltb (evaluate_hand two_pairs) (evaluate_hand straight_hand) ≡ true
unfolding evaluate_hand
two_pairs_lose = refl

ltb-evaluate_hand_example :
    ltb (evaluate_hand two_pairs) (evaluate_hand straight_hand)
    ≡ comes_before
        ((classify_hand two_pairs).rank ∷ (classify_hand two_pairs).kickers)
        ((classify_hand straight_hand).rank ∷ (classify_hand straight_hand).kickers)
ltb-evaluate_hand_example = ltb-evaluate_hand two_pairs straight_hand
