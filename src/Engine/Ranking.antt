-- ===== src/Engine/Ranking.antt =====
-- The finishing places: who may share one.
use terminal_card.Base.{
  ℕ, ◌+◌, ◌≤◌, ◌≡◌, refl, Bool, true, false, Option, none, some, List, [], ◌∷◌, ◌++◌, arith, length,
  All, take, drop,
}
use terminal_card.Game.{Player, State, Rules, contains_id}
use terminal_card.Engine.Places.{same, ties, place_of, places_from, places}

-- Whether a place in the standings is a leaver's; a nil is nobody's.
abbrev pub is_leaver : {X : Type 0} → State X → Option Player → Bool
is_leaver s none = false
is_leaver s (some p) = contains_id p.id s.left_players

module _ {X A E : Type 0} (rules : Rules X A E) where
  ties_leaver :
      (s : State X) (p q : Option Player)
      → is_leaver s p ≡ true
      → is_leaver s q ≡ false
      → ties rules s p q ≡ false
  unfolding ties same
  ties_leaver s none q h k = cc
  ties_leaver s (some p) none h k = refl
  ties_leaver s (some p) (some q) h k = ground arith

  places_from-ge :
      (s : State X) (low i place : ℕ) (prev : Option Player) (order : List (Option Player))
      → low ≤ place
      → low ≤ i + 1
      → 1 ≤ i
      → All (λ m. low ≤ m) (places_from rules s i prev place order)
  unfolding places_from place_of
  places_from-ge s low i place prev [] h k j = tt
  places_from-ge s low i place prev (p ∷ ps) h k j =
      let here = place_of rules s i prev place p in
      let low_here : low ≤ here = ground arith in
      (low_here, places_from-ge s low (i + 1) here p ps low_here (omega arith) (omega arith))

  -- Places up to a leaver who follows a seated player, and from there on.
  split_places :
      (s : State X) (i place : ℕ) (prev : Option Player) (xs : List (Option Player))
      (y : Option Player) (ys : List (Option Player))
      → place ≤ i
      → is_leaver s prev ≡ false
      → All (λ x. is_leaver s x ≡ false) xs
      → is_leaver s y ≡ true
      → All
          (λ m. m ≤ i + length xs)
          (take (length xs) (places_from rules s i prev place (xs ++ y ∷ ys)))
        × All
            (λ m. i + length xs + 1 ≤ m)
            (drop (length xs) (places_from rules s i prev place (xs ++ y ∷ ys)))
  unfolding places_from place_of
  split_places s i place prev [] y ys h q seated left =
      let first : place_of rules s i prev place y ≡ i + 1 =
        ground (arith, ties_leaver s y prev left q) in
      (
        tt,
        rw first (
          omega arith,
          places_from-ge s (i + 0 + 1) (i + 1) (i + 1) y ys (omega arith) (omega arith)
              (omega arith),
        ),
      )
  split_places s i place prev (x ∷ xs) y ys h q seated left =
      let here = place_of rules s i prev place x in
      let low : here ≤ i + 1 = ground arith in
      let (upper, lower) = split_places s (i + 1) here x xs y ys low seated.0 seated.1 left in
      let shift : i + 1 + length xs ≡ i + length (x ∷ xs) = omega arith in
      ((omega arith, rw shift at upper), rw shift at lower)

  -- Where the standings list players who are not leavers first, then a leaver and whoever
  -- follows, the first group has places up to its size, and the leaver and all who follow have
  -- later places, whatever the scores.
  pub leavers_rank_below :
      (s : State X) (xs : List (Option Player)) (y : Option Player) (ys : List (Option Player))
      → All (λ x. is_leaver s x ≡ false) xs
      → is_leaver s y ≡ true
      → All (λ m. m ≤ length xs) (take (length xs) (places rules s (xs ++ y ∷ ys)))
        × All (λ m. length xs + 1 ≤ m) (drop (length xs) (places rules s (xs ++ y ∷ ys)))
  unfolding places
  leavers_rank_below s xs y ys seated left =
      let from_zero : 0 + length xs ≡ length xs = omega arith in
      rw from_zero at (split_places s 0 0 none xs y ys (omega arith) refl seated left)
