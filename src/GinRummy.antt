-- ===== src/GinRummy.antt =====
-- internal/game/ginrummy/melds.go: the candidate melds of a hand as index masks, and the search for
-- the disjoint melds that leave the best deadwood.
pub mod Search
pub mod Layoffs
pub mod Keys
pub mod Fitting
pub mod Growing
pub mod Settled
use Prim.Native.Nat.{bit_and, bit_or}
use terminal_card.Base.{
  ℕ, zero, suc, ◌+◌, ◌-◌, ◌*◌, ◌^◌, Bool, true, false, List, [], ◌∷◌, ◌++◌, map, ◌==◌, ltb, leb,
  if◌then◌else◌, length, ◌||◌,
}
use terminal_card.Base.GoMap.{GoMap, get_or, put}
use terminal_card.Deck.{Card, pip_value, run_order}

unfoldable pub deadwood_points : Card → ℕ
unfolding pip_value
deadwood_points c = pip_value c.rank

unfoldable pub sum_deadwood : List Card → ℕ
unfolding deadwood_points
sum_deadwood [] = 0
sum_deadwood (c ∷ cs) = deadwood_points c + sum_deadwood cs

abbrev pub mask_bits : ℕ
mask_bits = 16

abbrev pub max_int : ℕ
max_int = 2 ^ 63 - 1

-- The mask of some indices, added to a mask.
unfoldable pub mask_from : ℕ → List ℕ → ℕ
mask_from mask [] = mask
mask_from mask (i ∷ is) = mask_from (bit_or mask (2 ^ i)) is

-- The walk of combinations: the choices of `k` items, in order.
unfoldable pub choices : ℕ → List ℕ → List (List ℕ)
choices zero items = [] ∷ []
choices (suc k) [] = []
choices (suc k) (i ∷ is) = map (λ c. i ∷ c) (choices k is) ++ choices (suc k) is

unfoldable pub combinations : List ℕ → ℕ → List (List ℕ)
unfolding choices
combinations items k = if ltb (length items) k || (k == 0) then [] else choices k items

-- The indices of the cards, from `i` on, gathered under a key of each card.
unfoldable pub group_by : (Card → ℕ) → ℕ → List Card → GoMap (List ℕ) → GoMap (List ℕ)
unfolding put
group_by key i [] groups = groups
group_by key i (c ∷ cs) groups =
    group_by key (suc i) cs (put (key c) (get_or [] (key c) groups ++ i ∷ []) groups)

-- The masks of the cards of one rank.
unfoldable pub set_masks_of : List ℕ → List ℕ
unfolding combinations mask_from
set_masks_of idxs =
    if ltb (length idxs) 3
    then []
    else map (mask_from 0) (combinations idxs 3)
      ++ (if leb 4 (length idxs) then map (mask_from 0) (combinations idxs 4) else [])

unfoldable pub each_set : GoMap (List ℕ) → List ℕ
unfolding set_masks_of
each_set [] = []
each_set ((rank, idxs) ∷ groups) = set_masks_of idxs ++ each_set groups

unfoldable pub set_masks : List Card → List ℕ
unfolding group_by each_set
set_masks cards = each_set (group_by (λ c. c.rank) 0 cards [])

-- RunOrder(cards[i].Rank)
unfoldable pub order_at : List Card → ℕ → ℕ
unfolding run_order
order_at [] i = 0
order_at (c ∷ cs) zero = run_order c.rank
order_at (c ∷ cs) (suc i) = order_at cs i

-- The masks of the starts of a block with three cards or more, where `n` cards are in the mask.
unfoldable pub start_masks : ℕ → ℕ → List ℕ → List ℕ
start_masks n mask [] = []
start_masks n mask (i ∷ is) =
    let longer = bit_or mask (2 ^ i) in
    let rest = start_masks (suc n) longer is in if leb 2 n then longer ∷ rest else rest

unfoldable pub sub_run_masks : List ℕ → List ℕ
unfolding start_masks
sub_run_masks [] = []
sub_run_masks (i ∷ is) = start_masks 0 0 (i ∷ is) ++ sub_run_masks is

-- The loop of runMasksInSuit, inside the block that ends in `last`.
unfoldable pub block_masks : List Card → List ℕ → ℕ → List ℕ → List ℕ
unfolding sub_run_masks order_at
block_masks cards block last [] = sub_run_masks block
block_masks cards block last (i ∷ is) = elim (order_at cards i == order_at cards last + 1) [
  | true ↦ block_masks cards (block ++ i ∷ []) i is
  | false ↦ sub_run_masks block ++ block_masks cards (i ∷ []) i is
]

unfoldable pub run_masks_in_suit : List Card → List ℕ → List ℕ
unfolding block_masks
run_masks_in_suit cards [] = []
run_masks_in_suit cards (i ∷ is) = block_masks cards (i ∷ []) i is

-- slices.SortFunc and slices.Sort by ascending key. Indices of one suit have equal keys only for two
-- copies of a card, whose order slices.SortFunc leaves open.
unfoldable pub insert_index : (ℕ → ℕ) → ℕ → List ℕ → List ℕ
insert_index key i [] = i ∷ []
insert_index key i (j ∷ js) = if leb (key i) (key j) then i ∷ j ∷ js else j ∷ insert_index key i js

unfoldable pub sort_indices : (ℕ → ℕ) → List ℕ → List ℕ
unfolding insert_index
sort_indices key [] = []
sort_indices key (i ∷ is) = insert_index key i (sort_indices key is)

unfoldable pub each_suit : List Card → GoMap (List ℕ) → List ℕ
unfolding run_masks_in_suit sort_indices order_at
each_suit cards [] = []
each_suit cards ((suit, idxs) ∷ groups) =
    run_masks_in_suit cards (sort_indices (order_at cards) idxs) ++ each_suit cards groups

unfoldable pub run_masks : List Card → List ℕ
unfolding group_by each_suit
run_masks cards = each_suit cards (group_by (λ c. c.suit) 0 cards [])

unfoldable pub generate_meld_masks : List Card → List ℕ
unfolding set_masks run_masks sort_indices
generate_meld_masks cards = sort_indices (λ m. m) (set_masks cards ++ run_masks cards)

-- The cards, from index `i` on, that a mask does not use, and those it uses.
unfoldable pub unused : ℕ → ℕ → List Card → List Card
unused i used [] = []
unused i used (c ∷ cs) =
    let rest = unused (suc i) used cs in if bit_and used (2 ^ i) == 0 then c ∷ rest else rest

unfoldable pub meld_of : ℕ → ℕ → List Card → List Card
meld_of i mask [] = []
meld_of i mask (c ∷ cs) =
    let rest = meld_of (suc i) mask cs in if bit_and mask (2 ^ i) == 0 then rest else c ∷ rest

-- The indices below `n + i`, from `i` on, that a mask uses, added to `used`.
unfoldable pub use_bits : ℕ → ℕ → ℕ → ℕ → ℕ
use_bits zero i mask used = used
use_bits (suc n) i mask used =
    use_bits n (suc i) mask (if bit_and mask (2 ^ i) == 0 then used else bit_or used (2 ^ i))

unfoldable pub use_masks : ℕ → List ℕ → ℕ → ℕ
unfolding use_bits
use_masks n [] used = used
use_masks n (m ∷ ms) used = use_masks n ms (use_bits n 0 m used)

pub record Best : Type 0 where
  pub points : ℕ
  pub masks : List ℕ

-- The first half of search: the split so far is kept where it scores lower than the best one.
unfoldable pub note_split : ℕ → List ℕ → Best → Best
note_split pts chosen best =
    if ltb pts best.points then record { points = pts; masks = chosen } else best

-- The loop of search over the candidates that are left, with the search that a candidate starts;
-- `points` is the score of the deadwood that a mask of used cards leaves.
unfoldable pub search_from : (ℕ → ℕ) → List ℕ → ℕ → List ℕ → Best → Best
unfolding note_split
search_from points [] used chosen best = best
search_from points (m ∷ ms) used chosen best =
    search_from points ms used chosen (elim (bit_and used m == 0) [
      | false ↦ best
      | true ↦ elim (points (bit_or used m) == 0) [
        | true ↦ note_split (points (bit_or used m)) (chosen ++ m ∷ []) best
        | false ↦
            search_from points ms (bit_or used m) (chosen ++ m ∷ [])
              (note_split (points (bit_or used m)) (chosen ++ m ∷ []) best)
      ]
    ])

unfoldable pub search : (ℕ → ℕ) → List ℕ → Best
unfolding search_from note_split
search points candidates =
    let first = note_split (points 0) [] (record { points = max_int; masks = [] }) in
    elim (points 0 == 0) [ true ↦ first | false ↦ search_from points candidates 0 [] first ]

pub record Split : Type 0 where
  pub melds : List (List Card)
  pub deadwood : List Card
  pub deadwood_pts : ℕ

unfoldable pub best_split_by : List Card → (List Card → ℕ) → Split
unfolding search generate_meld_masks unused meld_of use_masks
best_split_by hand score =
    if ltb mask_bits (length hand)
    then record { melds = []; deadwood = hand; deadwood_pts = score hand }
    else let best = search (λ used. score (unused 0 used hand)) (generate_meld_masks hand) in
      record {
        melds = map (λ mask. meld_of 0 mask hand) best.masks;
        deadwood = unused 0 (use_masks (length hand) best.masks 0) hand;
        deadwood_pts = best.points;
      }

unfoldable pub best_meld_split : List Card → Split
unfolding best_split_by sum_deadwood
best_meld_split hand = best_split_by hand sum_deadwood
