-- ===== src/Engine/Places.antt =====
-- engine.go's standingsLocked and placesLocked: the finishing order and the places.
use terminal_card.Base.{
  ℕ, ◌+◌, Bool, true, false, ◌&&◌, not, Option, none, some, List, [], ◌∷◌, ◌++◌, reverse, ◌==◌,
  if◌then◌else◌,
}
use terminal_card.Base.Int.{eqb_ℤ}
use terminal_card.Game.{Player, State, Rules, contains_id}

-- `==` on bool.
unfoldable pub same : Bool → Bool → Bool
same true b = b
same false b = not b

-- Whether the standings hold an id, a nil apart.
unfoldable pub holds : List (Option Player) → ℕ → Bool
holds [] pid = false
holds (none ∷ ps) pid = holds ps pid
holds (some p ∷ ps) pid = if p.id == pid then true else holds ps pid

-- The leavers, latest first, whom the rules' standings do not hold.
unfoldable pub unplaced : List (Option Player) → List Player → List (Option Player)
unplaced standings [] = []
unplaced standings (p ∷ ps) =
    let rest = unplaced standings ps in if holds standings p.id then rest else some p ∷ rest

module _ {X A E : Type 0} (rules : Rules X A E) where
  unfoldable pub standings : State X → List (Option Player)
  unfolding unplaced
  standings s = rules.standings s ++ unplaced (rules.standings s) (reverse s.left_players)

  -- Whether two neighbours in the standings share a place.
  unfoldable pub ties : State X → Option Player → Option Player → Bool
  ties s (some p) (some q) = elim rules.standing_score [
    | none ↦ false
    | some score ↦
        same (contains_id p.id s.left_players) (contains_id q.id s.left_players)
        && eqb_ℤ (score s p) (score s q)
  ]
  ties s _ _ = false

  -- One round of placesLocked, for p at index i behind prev with its place.
  unfoldable pub place_of : State X → ℕ → Option Player → ℕ → Option Player → ℕ
  place_of s i prev place p = if i == 0 then 1 else if ties s p prev then place else i + 1

  -- The loop of placesLocked: index, predecessor and its place are its variables.
  unfoldable pub places_from : State X → ℕ → Option Player → ℕ → List (Option Player) → List ℕ
  places_from s i prev place [] = []
  places_from s i prev place (p ∷ ps) =
      let here = place_of s i prev place p in here ∷ places_from s (i + 1) p here ps

  unfoldable pub places : State X → List (Option Player) → List ℕ
  unfolding places_from
  places s order = places_from s 0 none 0 order
