-- ===== src/Poker/Pots.antt =====
-- internal/game/poker/streets.go: how the pool is cut into pots and paid out.
use terminal_card.Base.{
  ℕ, ◌+◌, ◌/◌, ◌%◌, not, ◌&&◌, ◌||◌, Option, none, some, List, [], ◌∷◌, ◌++◌, ◌==◌, ltb, leb,
  if◌then◌else◌, length,
}
use terminal_card.Base.Words.{u_add, u_sub}
use terminal_card.Base.GoMap.{GoMap, get_or, put}
use terminal_card.Game.{Player, contains_id}
use terminal_card.Poker.{State, Pot, contributed, credit, take_from_pool}

-- slices.Sort and slices.Sorted on numbers: the ascending order.
unfoldable pub insert_sorted : ℕ → List ℕ → List ℕ
insert_sorted a [] = a ∷ []
insert_sorted a (b ∷ bs) = if leb a b then a ∷ b ∷ bs else b ∷ insert_sorted a bs

unfoldable pub sorted : List ℕ → List ℕ
unfolding insert_sorted
sorted [] = []
sorted (a ∷ as') = insert_sorted a (sorted as')

-- slices.Compact: runs of equal numbers become one; `compact_from` stands behind the number `a`.
unfoldable pub compact_from : ℕ → List ℕ → List ℕ
compact_from a [] = []
compact_from a (b ∷ bs) = let rest = compact_from b bs in if b == a then rest else b ∷ rest

unfoldable pub compact : List ℕ → List ℕ
unfolding compact_from
compact [] = []
compact (a ∷ as') = a ∷ compact_from a as'

unfoldable pub delete_zeros : List ℕ → List ℕ
delete_zeros [] = []
delete_zeros (a ∷ as') = let rest = delete_zeros as' in if a == 0 then rest else a ∷ rest

unfoldable pub values : GoMap ℕ → List ℕ
values [] = []
values ((k, v) ∷ m) = v ∷ values m

unfoldable pub levels : GoMap ℕ → List ℕ
unfolding values sorted compact delete_zeros
levels m = delete_zeros (compact (sorted (values m)))

-- The inner loop of buildSidePots: what the layer from `prev` to `lvl` holds, and who may win it.
unfoldable pub layer_amount : ℕ → ℕ → GoMap ℕ → ℕ → ℕ
layer_amount prev lvl [] acc = acc
layer_amount prev lvl ((k, c) ∷ m) acc =
    layer_amount prev lvl m (if ltb c lvl then acc else u_add acc (u_sub lvl prev))

unfoldable pub layer_eligible : ℕ → List Player → GoMap ℕ → List ℕ
unfolding contains_id
layer_eligible lvl live [] = []
layer_eligible lvl live ((k, c) ∷ m) =
    let rest = layer_eligible lvl live m in
    if not (ltb c lvl) && contains_id k live then k ∷ rest else rest

-- The pots cut so far with the dead money that rides to the next layer.
pub record Cut : Type 0 where
  pub pots : List Pot
  pub orphan : ℕ

-- One layer that holds `amount`. With nobody to win it, it is carried forward.
unfoldable pub add_layer : ℕ → List ℕ → Cut → Cut
add_layer amount [] cut = record cut { orphan = amount }
add_layer amount (e ∷ es) cut = record {
  pots = cut.pots ++ record { amount = amount; eligible = sorted (e ∷ es) } ∷ [];
  orphan = 0;
}

unfoldable pub cut_layers : List Player → GoMap ℕ → ℕ → List ℕ → Cut → Cut
unfolding layer_amount layer_eligible add_layer sorted
cut_layers live m prev [] cut = cut
cut_layers live m prev (lvl ∷ lvls) cut =
    cut_layers live m lvl lvls
      (add_layer (u_add (layer_amount prev lvl m 0) cut.orphan) (layer_eligible lvl live m) cut)

-- pots[len(pots)-1].Amount += orphan, which panics where there is no pot.
unfoldable pub add_to_last : ℕ → List Pot → Option (List Pot)
add_to_last orphan [] = none
add_to_last orphan (p ∷ []) = some (record p { amount = u_add p.amount orphan } ∷ [])
add_to_last orphan (p ∷ q ∷ ps) = elim (add_to_last orphan (q ∷ ps)) [
  | none ↦ none
  | some r ↦ some (p ∷ r)
]

unfoldable pub close_cut : Cut → Option (List Pot)
unfolding add_to_last
close_cut cut = if ltb 0 cut.orphan then add_to_last cut.orphan cut.pots else some cut.pots

unfoldable pub build_side_pots : State → List Player → Option (List Pot)
unfolding levels cut_layers close_cut
build_side_pots x live = close_cut (
    cut_layers live x.total_contributed 0 (levels x.total_contributed)
      (record { pots = []; orphan = 0 }))

-- The loop of refundUncalled: the largest contributor, the largest and the second contribution.
unfoldable pub top_two : ℕ → ℕ → ℕ → GoMap ℕ → ℕ × ℕ × ℕ
top_two top_id top second [] = (top_id, top, second)
top_two top_id top second ((k, c) ∷ m) =
    top_two (if ltb top c then k else top_id) (if ltb top c then c else top)
      (if ltb top c then top else if ltb second c then c else second) m

unfoldable pub refund_uncalled : State → State
unfolding top_two credit take_from_pool
refund_uncalled x =
    let (top_id, top, second) = top_two 0 0 0 x.total_contributed in
    let uncalled = u_sub top second in
    if uncalled == 0
    then x
    else take_from_pool uncalled (
        credit top_id uncalled
          (record x { total_contributed = put top_id second x.total_contributed }))

-- One round of splitEvenly: the share, and one odd chip for each of the first `rem` ids.
unfoldable pub give_share : ℕ → ℕ → ℕ → ℕ → State → State
unfolding credit
give_share i share rem k x = let y = credit k share x in if ltb i rem then credit k 1 y else y

-- The loop of splitEvenly from place `i` on.
unfoldable pub split_from : ℕ → ℕ → ℕ → List ℕ → State → State
split_from i share rem [] x = x
split_from i share rem (k ∷ ks) x = split_from (i + 1) share rem ks (give_share i share rem k x)

-- None where Go divides by zero.
unfoldable pub split_evenly : List ℕ → ℕ → State → Option State
unfolding split_from give_share
split_evenly [] amount x = none
split_evenly (k ∷ ks) amount x =
    let n = length (k ∷ ks) in some (split_from 0 (amount / n) (amount % n) (k ∷ ks) x)

-- The loop over a pot's eligible players. The best score so far is none for -1, which is below every
-- score.
unfoldable pub best_hands : GoMap ℕ → Option ℕ → List ℕ → List ℕ → List ℕ
best_hands scores best winners [] = winners
best_hands scores none winners (k ∷ ks) = best_hands scores (some (get_or 0 k scores)) (k ∷ []) ks
best_hands scores (some b) winners (k ∷ ks) =
    let score = get_or 0 k scores in
    best_hands scores (if ltb b score then some score else some b)
      (if ltb b score then k ∷ [] else if score == b then winners ++ k ∷ [] else winners) ks

unfoldable pub find_player : ℕ → List Player → Option Player
find_player pid [] = none
find_player pid (p ∷ ps) = if p.id == pid then some p else find_player pid ps

-- A winner joins the announced winners once. Every id of a pot is a live player's.
unfoldable pub announce : List Player → List ℕ → List Player → List Player
unfolding find_player contains_id
announce live [] winners = winners
announce live (k ∷ ks) winners = announce live ks (elim (find_player k live) [
  | none ↦ winners
  | some p ↦ if contains_id k winners then winners else winners ++ p ∷ []
])

unfoldable pub pay_pot : GoMap ℕ → Pot → State → Option State
pay_pot scores pot x =
    elim (split_evenly (sorted (best_hands scores none [] pot.eligible)) pot.amount x) [
      | none ↦ none
      | some y ↦ some (take_from_pool pot.amount y)
    ]

unfoldable pub award_pots : GoMap ℕ → List Pot → State → Option State
award_pots scores [] x = some x
award_pots scores (pot ∷ pots) x = elim (pay_pot scores pot x) [
  | none ↦ none
  | some y ↦ award_pots scores pots y
]

-- awardPots' result: everyone who took a share, main pot first.
unfoldable pub pot_winners : List Player → GoMap ℕ → List Pot → List Player → List Player
unfolding announce best_hands sorted
pot_winners live scores [] winners = winners
pot_winners live scores (pot ∷ pots) winners =
    pot_winners live scores pots
      (announce live (sorted (best_hands scores none [] pot.eligible)) winners)

-- The loop of awardUncontested: what the winner did not match goes back.
unfoldable pub return_unmatched : ℕ → ℕ → GoMap ℕ → State → State
unfolding credit take_from_pool
return_unmatched winner matched [] x = x
return_unmatched winner matched ((k, c) ∷ m) x = return_unmatched winner matched m (
    if (k == winner) || leb c matched
    then x
    else take_from_pool (u_sub c matched) (credit k (u_sub c matched) x))

unfoldable pub award_uncontested : Player → State → State
award_uncontested winner x =
    let y = return_unmatched winner.id (contributed x winner.id) x.total_contributed x in
    record (credit winner.id y.main_pool y) { main_pool = 0; pots = [] }

-- The loop of refundContributions.
unfoldable pub return_all : GoMap ℕ → State → State
unfolding credit
return_all [] x = x
return_all ((k, c) ∷ m) x = return_all m (credit k c x)

unfoldable pub refund_contributions : State → State
refund_contributions x = record (return_all x.total_contributed x) { main_pool = 0; pots = [] }
