-- ===== src/GinRummy/Search.antt =====
-- The search of melds.go returns the best of all disjoint choices of candidate melds.
use Prim.Native.Nat.{bit_and, bit_or, bit_and-bitwise, ◌^◌}
use terminal_card.Base.{
  ℕ, suc, ◌<◌, ◌≤◌, ◌≡◌, refl, sym, ap, ◌∙◌, subst, map, length, true, List, [], ◌∷◌, ◌++◌, ◌==◌,
  ltb, arith, inl, inr, ◌⊎◌, Bool-cases,
}
use mathlib.Core.List.{append_assoc}
use terminal_card.Deck.{Card}
use terminal_card.GinRummy.{
  Best, note_split, search_from, search, max_int, mask_bits, unused, meld_of, generate_meld_masks,
  best_split_by,
}

-- The union of a mask with the masks of a choice.
unfoldable pub union : ℕ → List ℕ → ℕ
union used [] = used
union used (q ∷ qs) = union (bit_or used q) qs

-- A choice of candidates, in their order, each disjoint from the used cards and from those before it.
unfoldable pub IsChoice : List ℕ → ℕ → List ℕ → Type 0
IsChoice ms used [] = Unit
IsChoice [] used (q ∷ qs) = ⊥
IsChoice (m ∷ ms) used (q ∷ qs) =
    ((m ≡ q) × (((bit_and used m) == 0) ≡ true) × IsChoice ms (bit_or used m) qs)
    ⊎ IsChoice ms used (q ∷ qs)

note_split-points-new :
    (n : ℕ) (chosen : List ℕ) (best : Best) → (note_split n chosen best).points ≤ n
unfolding note_split
note_split-points-new n chosen best = ground arith

note_split-points-old :
    (n : ℕ) (chosen : List ℕ) (best : Best) → (note_split n chosen best).points ≤ best.points
unfolding note_split
note_split-points-old n chosen best = ground arith

search_from-lower :
    (points : ℕ → ℕ) (ms : List ℕ) (used : ℕ) (chosen : List ℕ) (best : Best)
    → (search_from points ms used chosen best).points ≤ best.points
unfolding search_from
search_from-lower points [] used chosen best = omega arith
search_from-lower points (m ∷ ms) used chosen best = elim (Bool-cases ((bit_and used m) == 0)) [
  | inr clash ↦ rw (clash, search_from) (search_from-lower points ms used chosen best)
  | inl free ↦
      let noted = note_split (points (bit_or used m)) (chosen ++ m ∷ []) best in
      let old = note_split-points-old (points (bit_or used m)) (chosen ++ m ∷ []) best in
      elim (Bool-cases (points (bit_or used m) == 0)) [
        | inl gin ↦
            let outer = search_from-lower points ms used chosen noted in
            rw (free, search_from, gin) (omega arith)
        | inr more ↦
            let inner = search_from-lower points ms (bit_or used m) (chosen ++ m ∷ []) noted in
            let outer =
              search_from-lower points ms used chosen
                (search_from points ms (bit_or used m) (chosen ++ m ∷ []) noted) in
            rw (free, search_from, more) (omega arith)
      ]
]

-- What the candidate `m` leads to scores no worse than any choice that starts with it.
search_from-starts :
    (points : ℕ → ℕ) (m : ℕ) (ms : List ℕ) (used : ℕ) (chosen : List ℕ) (best : Best) (bound : ℕ)
    → ((bit_and used m) == 0) ≡ true
    → ((search_from points ms
          (bit_or used m)
          (chosen ++ m ∷ [])
          (note_split (points (bit_or used m)) (chosen ++ m ∷ []) best)).points
        ≤ bound)
    → (search_from points (m ∷ ms) used chosen best).points ≤ bound
unfolding search_from
search_from-starts points m ms used chosen best bound free bounded =
    let noted = note_split (points (bit_or used m)) (chosen ++ m ∷ []) best in
    let new = note_split-points-new (points (bit_or used m)) (chosen ++ m ∷ []) best in
    elim (Bool-cases (points (bit_or used m) == 0)) [
      | inl gin ↦
          let outer = search_from-lower points ms used chosen noted in
          rw (free, search_from, gin) (ground arith)
      | inr more ↦
          let outer =
            search_from-lower points ms used chosen
              (search_from points ms (bit_or used m) (chosen ++ m ∷ []) noted) in
          rw (free, search_from, more) (omega arith)
    ]

search_from-beats :
    (points : ℕ → ℕ) (ms : List ℕ) (used : ℕ) (chosen : List ℕ) (best : Best) (q : ℕ) (qs : List ℕ)
    → IsChoice ms used (q ∷ qs)
    → (search_from points ms used chosen best).points ≤ points (union used (q ∷ qs))
unfolding search_from IsChoice union
search_from-beats points [] used chosen best q qs choice = elim choice [ ]
search_from-beats points (m ∷ ms) used chosen best q qs (inr later) =
    search_from-beats points ms used chosen _ q qs later
search_from-beats points (m ∷ ms) used chosen best q [] (inl (same, free, rest)) =
    let noted = note_split (points (bit_or used m)) (chosen ++ m ∷ []) best in
    let new = note_split-points-new (points (bit_or used m)) (chosen ++ m ∷ []) best in
    let inner = search_from-lower points ms (bit_or used m) (chosen ++ m ∷ []) noted in
    subst (λ p. (search_from points (m ∷ ms) used chosen best).points ≤ points (bit_or used p)) same
      (search_from-starts points m ms used chosen best (points (bit_or used m)) free (omega arith))
search_from-beats points (m ∷ ms) used chosen best q (r ∷ rs) (inl (same, free, rest)) =
    let noted = note_split (points (bit_or used m)) (chosen ++ m ∷ []) best in
    subst
      (λ p.
        (search_from points (m ∷ ms) used chosen best).points
        ≤ points (union (bit_or used p) (r ∷ rs)))
      same
      (search_from-starts points m ms used chosen best _ free
        (search_from-beats points ms (bit_or used m) (chosen ++ m ∷ []) noted r rs rest))

search-beats :
    (points : ℕ → ℕ) (ms qs : List ℕ)
    → IsChoice ms 0 qs
    → (search points ms).points ≤ points (union 0 qs)
unfolding search IsChoice union
search-beats points ms qs choice =
    let start : Best = record { points = max_int; masks = [] } in
    let new = note_split-points-new (points 0) [] start in
    elim (Bool-cases (points 0 == 0)) [
      | inl gin ↦ rw (gin, search) (ground arith)
      | inr more ↦
          rw (more, search) (further points ms qs (note_split (points 0) [] start) new choice)
    ]
  where
    further :
        (points : ℕ → ℕ) (ms qs : List ℕ) (first : Best)
        → first.points ≤ points 0
        → IsChoice ms 0 qs
        → (search_from points ms 0 [] first).points ≤ points (union 0 qs)
    further points ms [] first new choice =
        let lower = search_from-lower points ms 0 [] first in omega arith
    further points ms (q ∷ qs) first new choice = search_from-beats points ms 0 [] first q qs choice

union-append : (u : ℕ) (xs ys : List ℕ) → union u (xs ++ ys) ≡ union (union u xs) ys
unfolding union
union-append u [] ys = refl
union-append u (x ∷ xs) ys = union-append (bit_or u x) xs ys

IsChoice-skip :
    (m : ℕ) (ms : List ℕ) (used : ℕ) (qs : List ℕ) → IsChoice ms used qs → IsChoice (m ∷ ms) used qs
unfolding IsChoice
IsChoice-skip m ms used [] choice = tt
IsChoice-skip m ms used (q ∷ qs) choice = inr choice

-- The best split so far is a disjoint choice and carries its score.
unfoldable pub IsFound : (ℕ → ℕ) → List ℕ → Best → Type 0
IsFound points candidates best =
    IsChoice candidates 0 best.masks × (best.points ≡ points (union 0 best.masks))

note_split-IsFound :
    (points : ℕ → ℕ) (candidates : List ℕ) (used : ℕ) (chosen : List ℕ) (best : Best)
    → IsChoice candidates 0 chosen
    → union 0 chosen ≡ used
    → IsFound points candidates best
    → IsFound points candidates (note_split (points used) chosen best)
unfolding note_split IsFound
note_split-IsFound points candidates used chosen best choice whole found =
    elim (Bool-cases (ltb (points used) best.points)) [
      | inl better ↦ rw (better, note_split) (choice, sym (ap points whole))
      | inr worse ↦ rw (worse, note_split) found
    ]

search_from-IsFound :
    (points : ℕ → ℕ) (candidates ms : List ℕ) (used : ℕ) (chosen : List ℕ) (best : Best)
    → ((rest : List ℕ) → IsChoice ms used rest → IsChoice candidates 0 (chosen ++ rest))
    → union 0 chosen ≡ used
    → IsFound points candidates best
    → IsFound points candidates (search_from points ms used chosen best)
unfolding search_from IsChoice union
search_from-IsFound points candidates [] used chosen best extend whole found = found
search_from-IsFound points candidates (m ∷ ms) used chosen best extend whole found =
    let skip =
      λ (rest : List ℕ) (c : IsChoice ms used rest). extend rest (IsChoice-skip m ms used rest c) in
    elim (Bool-cases ((bit_and used m) == 0)) [
      | inr clash ↦
          rw (clash, search_from)
            (search_from-IsFound points candidates ms used chosen best skip whole found)
      | inl free ↦
          let used' = bit_or used m in
          let chosen' = chosen ++ m ∷ [] in
          let whole' : union 0 chosen' ≡ used' =
            union-append 0 chosen (m ∷ []) ∙ ap (λ u. bit_or u m) whole in
          let noted = note_split (points used') chosen' best in
          let noted_found =
            note_split-IsFound points candidates used' chosen' best
              (extend (m ∷ []) (inl (refl, free, tt))) whole' found in
          elim (Bool-cases (points used' == 0)) [
            | inl gin ↦
                rw (free, search_from, gin)
                  (search_from-IsFound points candidates ms used chosen noted skip whole
                    noted_found)
            | inr more ↦
                let deeper = λ (rest : List ℕ) (c : IsChoice ms used' rest).
                  subst (IsChoice candidates 0) (sym (append_assoc chosen (m ∷ []) rest))
                    (extend (m ∷ rest) (inl (refl, free, c))) in
                let inner =
                  search_from-IsFound points candidates ms used' chosen' noted deeper whole'
                    noted_found in
                rw (free, search_from, more)
                  (search_from-IsFound points candidates ms used chosen
                    (search_from points ms used' chosen' noted) skip whole inner)
          ]
    ]

search-IsFound :
    (points : ℕ → ℕ) (candidates : List ℕ)
    → points 0 < max_int
    → IsFound points candidates (search points candidates)
unfolding search IsChoice union IsFound note_split
search-IsFound points candidates fits =
    let first : Best = record { points = points 0; masks = [] } in
    elim (Bool-cases (ltb (points 0) max_int)) [
      | inr over ↦ grind arith
      | inl under ↦ elim (Bool-cases (points 0 == 0)) [
        | inl gin ↦ rw (gin, search, under) (tt, refl)
        | inr more ↦
            rw (more, search, under)
              (search_from-IsFound points candidates candidates 0 [] first (λ rest c. c) refl
                (tt, refl))
      ]
    ]

unused_none : (i : ℕ) (hand : List Card) → unused i 0 hand ≡ hand
unfolding unused
unused_none i [] = refl
unused_none i (c ∷ cs) =
    rw (bit_and-bitwise 0 (2 ^ i), unused)
      (ap {B = List Card} (λ r. c ∷ r) (unused_none (suc i) cs))

-- Of a hand of at most 16 cards, with a score of the deadwood that is below the largest int for the whole
-- hand, the split has as its melds a disjoint choice of the candidate melds, reports the score of the cards
-- outside that choice, and no other disjoint choice of candidates leaves cards with a lower score.
pub best_split_by-IsBest :
    (hand : List Card) (score : List Card → ℕ)
    → length hand ≤ mask_bits
    → score hand < max_int
    → (masks : List ℕ) × IsChoice (generate_meld_masks hand) 0 masks
      × ((best_split_by hand score).melds ≡ map (λ mask. meld_of 0 mask hand) masks)
      × ((best_split_by hand score).deadwood_pts ≡ score (unused 0 (union 0 masks) hand))
      × ((others : List ℕ)
          → IsChoice (generate_meld_masks hand) 0 others
          → (best_split_by hand score).deadwood_pts ≤ score (unused 0 (union 0 others) hand))
unfolding best_split_by IsFound
best_split_by-IsBest hand score few small = elim (Bool-cases (ltb mask_bits (length hand))) [
  | inl many ↦ grind arith
  | inr fits ↦
      let points = λ (used : ℕ). score (unused 0 used hand) in
      let candidates = generate_meld_masks hand in
      let found =
        search-IsFound points candidates
          (subst (λ h. score h < max_int) (sym (unused_none 0 hand)) small) in
      rw (fits, best_split_by)
        (
          (search points candidates).masks,
          found.0,
          refl,
          found.1,
          λ others c. search-beats points candidates others c,
        )
]
