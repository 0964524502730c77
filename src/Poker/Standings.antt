-- ===== src/Poker/Standings.antt =====
-- internal/game/poker/streets.go: rankPlayers, and the score that tells draws apart (rules.go).
use terminal_card.Base.{
  ℕ, suc, not, ◌&&◌, Option, none, some, List, [], ◌∷◌, ◌++◌, ◌==◌, ltb, leb, if◌then◌else◌, length,
}
use terminal_card.Base.Int.{ℤ, pos}
use terminal_card.Base.GoMap.{GoMap, get_or}
use terminal_card.Game.{Player}
use terminal_card.Poker.{State, Table, chips, is_folded}
use terminal_card.Poker.Streets.{hand_scores}

-- A comparison: the sign of Go's int.
pub data Sign : Type 0 where
  before same after : Sign

-- cmp.Compare.
unfoldable pub compare_ids : ℕ → ℕ → Sign
compare_ids a b = if ltb a b then Sign.before else if ltb b a then Sign.after else Sign.same

unfoldable pub or_else : Sign → Sign → Sign
or_else Sign.same s = s
or_else s _ = s

unfoldable pub busted_at : State → ℕ → ℕ
busted_at x pid = get_or 0 pid x.busted_at_hand

-- resultLevel's comparison, over the scores of the hands.
unfoldable pub result_level : State → GoMap ℕ → ℕ → ℕ → Sign
result_level x scores a b = or_else (compare_ids (chips x b) (chips x a)) (
    or_else (compare_ids (busted_at x b) (busted_at x a)) (
      if is_folded x a && not (is_folded x b)
      then Sign.after
      else if not (is_folded x a) && is_folded x b
      then Sign.before
      else if not (is_folded x a) && leb 3 (length x.table)
      then compare_ids (get_or 0 b scores) (get_or 0 a scores)
      else Sign.same))

unfoldable pub result_order : State → GoMap ℕ → ℕ → ℕ → Sign
unfolding result_level
result_order x scores a b = or_else (result_level x scores a b) (compare_ids a b)

-- slices.SortFunc by a comparison of ids: the order is total, so the sorted slice is one.
unfoldable pub insert_by : (ℕ → ℕ → Sign) → Player → List Player → List Player
insert_by cmp p [] = p ∷ []
insert_by cmp p (q ∷ qs) =
    let rest = insert_by cmp p qs in elim (cmp p.id q.id) [ Sign.after ↦ q ∷ rest | _ ↦ p ∷ q ∷ qs ]

unfoldable pub sort_by : (ℕ → ℕ → Sign) → List Player → List Player
unfolding insert_by
sort_by cmp [] = []
sort_by cmp (p ∷ ps) = insert_by cmp p (sort_by cmp ps)

unfoldable pub all_scores : Table → State → GoMap ℕ
all_scores t x = hand_scores x (t.players ++ t.left_players)

unfoldable pub rank_players : Table → State → List Player
unfolding sort_by result_order all_scores
rank_players t x =
    let order = result_order x (all_scores t x) in
    sort_by order t.players ++ sort_by order t.left_players

-- The loop of StandingScore; `prev` is the player before, if there is one.
unfoldable pub group_of : (ℕ → ℕ → Sign) → ℕ → Option ℕ → ℕ → List Player → ℕ
group_of level pid prev group [] = group
group_of level pid prev group (q ∷ qs) =
    let here : ℕ = elim prev [
      | none ↦ group
      | some o ↦ elim (level o q.id) [ Sign.same ↦ group | _ ↦ suc group ]
    ] in
    let rest = group_of level pid (some q.id) here qs in if q.id == pid then here else rest

unfoldable pub standing_score : Table → State → Player → ℤ
unfolding group_of
standing_score t x p =
    pos (group_of (result_level x (all_scores t x)) p.id none 0 (rank_players t x))
