-- ===== src/Game/Scores.antt =====
-- internal/game/rules.go: standings by a score, and the test for a target score.
use terminal_card.Base.{ℕ, Bool, false, ◌||◌, List, [], ◌∷◌, if◌then◌else◌, ltb, leb}
use terminal_card.Base.GoMap.{GoMap}
use terminal_card.Game.{Player}

unfoldable pub any_score_at_least : GoMap ℕ → ℕ → Bool
any_score_at_least [] target = false
any_score_at_least ((k, score) ∷ m) target = leb target score || any_score_at_least m target

-- slices.SortStableFunc: equal scores keep the order of the seats.
unfoldable pub insert_by_score : (Player → ℕ) → Player → List Player → List Player
insert_by_score score p [] = p ∷ []
insert_by_score score p (q ∷ qs) =
    let rest = insert_by_score score p qs in
    if ltb (score q) (score p) then q ∷ rest else p ∷ q ∷ qs

unfoldable pub standings_by_score : List Player → (Player → ℕ) → List Player
unfolding insert_by_score
standings_by_score [] score = []
standings_by_score (p ∷ ps) score = insert_by_score score p (standings_by_score ps score)
