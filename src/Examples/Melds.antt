-- ===== src/Examples/Melds.antt =====
-- internal/game/ginrummy/melds.go at a hand with a run and a set.
use terminal_card.Base.{ℕ, ◌≤◌, ◌≡◌, refl, arith, List, [], ◌∷◌, map}
use terminal_card.Deck.{Card}
use terminal_card.GinRummy.{
  best_split_by, best_meld_split, sum_deadwood, generate_meld_masks, meld_of, unused,
}
use terminal_card.GinRummy.Layoffs.{apply_layoffs, is_set, is_run}
use terminal_card.GinRummy.Fitting.{is_meld}
use terminal_card.GinRummy.Growing.{AllMelds}
use terminal_card.GinRummy.Settled.{IsLaidOff, apply_layoffs-IsSettled}
use terminal_card.GinRummy.Search.{IsChoice, union, best_split_by-IsBest}

abbrev card : ℕ → ℕ → Card
card rank suit = record { rank = rank; suit = suit }

-- The fours are a set of three, and the spades from four to six a run: one four serves one of them.
abbrev fours : List Card
fours = card 4 1 ∷ card 4 2 ∷ card 4 3 ∷ card 5 1 ∷ card 6 1 ∷ card 13 4 ∷ []

fours_masks : generate_meld_masks fours ≡ 7 ∷ 25 ∷ []
unfolding generate_meld_masks
fours_masks = refl

-- The set leaves 21 points and the run 18.
fours_split : best_meld_split fours ≡ record {
  melds = (card 4 1 ∷ card 5 1 ∷ card 6 1 ∷ []) ∷ [];
  deadwood = card 4 2 ∷ card 4 3 ∷ card 13 4 ∷ [];
  deadwood_pts = 18;
}
unfolding best_meld_split
fours_split = refl

best_split_by-IsBest_example :
    (masks : List ℕ) × IsChoice (generate_meld_masks fours) 0 masks
    × ((best_split_by fours sum_deadwood).melds ≡ map (λ mask. meld_of 0 mask fours) masks)
    × ((best_split_by fours sum_deadwood).deadwood_pts
        ≡ sum_deadwood (unused 0 (union 0 masks) fours))
    × ((others : List ℕ)
        → IsChoice (generate_meld_masks fours) 0 others
        → (best_split_by fours sum_deadwood).deadwood_pts
          ≤ sum_deadwood (unused 0 (union 0 others) fours))
unfolding sum_deadwood
best_split_by-IsBest_example = best_split_by-IsBest fours sum_deadwood (omega arith) (omega arith)

-- A run of hearts from five to seven takes the four, and then the three that was tried before it.
abbrev heart_run : List (List Card)
heart_run = (card 5 2 ∷ card 6 2 ∷ card 7 2 ∷ []) ∷ []

abbrev low_hearts : List Card
low_hearts = card 3 2 ∷ card 4 2 ∷ card 13 2 ∷ []

lays_two_off : (apply_layoffs low_hearts heart_run).laid_off ≡ card 4 2 ∷ card 3 2 ∷ []
unfolding apply_layoffs
lays_two_off = refl

heart_run-AllMelds : AllMelds heart_run
unfolding AllMelds is_meld is_set is_run
heart_run-AllMelds = (refl, tt)

apply_layoffs-IsSettled_example :
    IsLaidOff low_hearts heart_run (apply_layoffs low_hearts heart_run)
apply_layoffs-IsSettled_example = apply_layoffs-IsSettled low_hearts heart_run heart_run-AllMelds
