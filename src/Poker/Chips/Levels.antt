-- ===== src/Poker/Chips/Levels.antt =====
-- The levels that buildSidePots sorts out are ascending and cover every contribution.
use terminal_card.Base.{
  ℕ, zero, suc, ◌<◌, ◌≤◌, ◌≡◌, refl, subst, ◌⊎◌, inl, inr, List, [], ◌∷◌, arith, All, Bool-cases,
  leb, ◌==◌,
}
use terminal_card.Base.Words.{u64_mod}
use terminal_card.Base.GoMap.{GoMap, total}
use terminal_card.Poker.Pots.{
  insert_sorted, sorted, compact, compact_from, delete_zeros, values, levels,
}
use terminal_card.Poker.Chips.Layers.{IsSorted, IsAscending, OneOf, IsCovered, AllCovered}

insert_sorted-IsSorted :
    (lo a : ℕ) (s : List ℕ) → lo ≤ a → IsSorted lo s → IsSorted lo (insert_sorted a s)
unfolding insert_sorted
insert_sorted-IsSorted lo a [] h s = (h, tt)
insert_sorted-IsSorted lo a (b ∷ bs) h s = elim (Bool-cases (leb a b)) [
  | inl first ↦ rw (first, insert_sorted) (h, (ground arith, s.1))
  | inr later ↦ rw (later, insert_sorted) (s.0, insert_sorted-IsSorted b a bs (ground arith) s.1)
]

pub sorted-IsSorted : (s : List ℕ) → IsSorted 0 (sorted s)
unfolding sorted
sorted-IsSorted [] = tt
sorted-IsSorted (a ∷ as') =
    insert_sorted-IsSorted 0 a (sorted as') (omega arith) (sorted-IsSorted as')

insert_sorted-OneOf : (c a : ℕ) (s : List ℕ) → (c ≡ a) ⊎ OneOf c s → OneOf c (insert_sorted a s)
unfolding insert_sorted
insert_sorted-OneOf c a [] h = h
insert_sorted-OneOf c a (b ∷ bs) h = elim (Bool-cases (leb a b)) [
  | inl first ↦ rw (first, insert_sorted) h
  | inr later ↦
      rw (later, insert_sorted)
        (elim h [
          | inl e ↦ inr (insert_sorted-OneOf c a bs (inl e))
          | inr r ↦ elim r [ inl e ↦ inl e | inr q ↦ inr (insert_sorted-OneOf c a bs (inr q)) ]
        ])
]

pub sorted-OneOf : (c : ℕ) (s : List ℕ) → OneOf c s → OneOf c (sorted s)
unfolding sorted
sorted-OneOf c [] h = h
sorted-OneOf c (a ∷ as') (inl e) = insert_sorted-OneOf c a (sorted as') (inl e)
sorted-OneOf c (a ∷ as') (inr r) = insert_sorted-OneOf c a (sorted as') (inr (sorted-OneOf c as' r))

insert_sorted-All :
    (bound a : ℕ) (s : List ℕ)
    → a < bound
    → All (λ x. x < bound) s
    → All (λ x. x < bound) (insert_sorted a s)
unfolding insert_sorted
insert_sorted-All bound a [] h s = (h, tt)
insert_sorted-All bound a (b ∷ bs) h s = elim (Bool-cases (leb a b)) [
  | inl first ↦ rw (first, insert_sorted) (h, s)
  | inr later ↦ rw (later, insert_sorted) (s.0, insert_sorted-All bound a bs h s.1)
]

sorted-All : (bound : ℕ) (s : List ℕ) → All (λ x. x < bound) s → All (λ x. x < bound) (sorted s)
unfolding sorted
sorted-All bound [] h = tt
sorted-All bound (a ∷ as') h = insert_sorted-All bound a (sorted as') h.0 (sorted-All bound as' h.1)

IsSorted-weaken : (lo hi : ℕ) (s : List ℕ) → lo ≤ hi → IsSorted hi s → IsSorted lo s
IsSorted-weaken lo hi [] h s = tt
IsSorted-weaken lo hi (a ∷ as') h s = (omega arith, s.1)

OneOf-le : (c lo : ℕ) (s : List ℕ) → IsSorted lo s → OneOf c s → lo ≤ c
OneOf-le c lo [] s r = absurd r
OneOf-le c lo (a ∷ as') s (inl e) = omega arith
OneOf-le c lo (a ∷ as') s (inr r) = omega (arith, OneOf-le c a as' s.1 r)

compact_from-IsAscending :
    (lo : ℕ) (s : List ℕ)
    → IsSorted lo s
    → All (λ x. x < u64_mod) s
    → IsAscending lo (compact_from lo s)
unfolding compact_from
compact_from-IsAscending lo [] s b = tt
compact_from-IsAscending lo (a ∷ as') s b = elim (Bool-cases (a == lo)) [
  | inl same ↦
      rw (same, compact_from)
        (subst (λ z. IsAscending z (compact_from a as')) (ground arith)
          (compact_from-IsAscending a as' s.1 b.1))
  | inr new ↦ rw (new, compact_from) (ground arith, b.0, compact_from-IsAscending a as' s.1 b.1)
]

compact_from-IsCovered :
    (c lo : ℕ) (s : List ℕ)
    → IsSorted lo s
    → (c ≤ lo) ⊎ OneOf c s
    → IsCovered c lo (compact_from lo s)
unfolding compact_from
compact_from-IsCovered c lo [] s h = ground arith
compact_from-IsCovered c lo (a ∷ as') s h = elim (Bool-cases (a == lo)) [
  | inl same ↦
      rw (same, compact_from)
        (subst (λ z. IsCovered c z (compact_from a as')) (ground arith)
          (compact_from-IsCovered c a as' s.1 (elim h [
            | inl low ↦ inl (omega arith)
            | inr r ↦ elim r [ inl q ↦ inl (omega arith) | inr q ↦ inr q ]
          ])))
  | inr new ↦
      rw (new, compact_from)
        (elim h [
          | inl low ↦ inl low
          | inr r ↦ elim r [
            | inl q ↦ inr (omega arith, compact_from-IsCovered c a as' s.1 (inl (omega arith)))
            | inr q ↦ inr (OneOf-le c a as' s.1 q, compact_from-IsCovered c a as' s.1 (inr q))
          ]
        ])
]

delete_zeros-IsAscending : (lo : ℕ) (s : List ℕ) → IsAscending lo s → delete_zeros s ≡ s
unfolding delete_zeros
delete_zeros-IsAscending lo [] h = refl
delete_zeros-IsAscending lo (a ∷ as') h = ground (arith, delete_zeros-IsAscending a as' h.2)

-- On an ascending list, Compact and DeleteFunc leave the distinct positive numbers.
delete_zeros-compact :
    (s : List ℕ)
    → IsSorted 0 s
    → All (λ x. x < u64_mod) s
    → delete_zeros (compact s) ≡ compact_from 0 s
unfolding delete_zeros compact compact_from
delete_zeros-compact [] s b = refl
delete_zeros-compact (zero ∷ as') s b =
    delete_zeros-IsAscending 0 (compact_from 0 as') (compact_from-IsAscending 0 as' s.1 b.1)
delete_zeros-compact (suc a ∷ as') s b = ground (
  arith,
  delete_zeros-IsAscending (suc a) (compact_from (suc a) as')
      (compact_from-IsAscending (suc a) as' s.1 b.1),
)

values-All : (m : GoMap ℕ) → total m < u64_mod → All (λ x. x < u64_mod) (values m)
unfolding values total
values-All [] h = tt
values-All ((k, c) ∷ m) h = (omega arith, values-All m (omega arith))

levels-eq : (m : GoMap ℕ) → total m < u64_mod → levels m ≡ compact_from 0 (sorted (values m))
unfolding levels
levels-eq m h =
    delete_zeros-compact (sorted (values m)) (sorted-IsSorted (values m))
      (sorted-All u64_mod (values m) (values-All m h))

pub levels-IsAscending : (m : GoMap ℕ) → total m < u64_mod → IsAscending 0 (levels m)
levels-IsAscending m h = rw (levels-eq m h) (
    compact_from-IsAscending 0 (sorted (values m)) (sorted-IsSorted (values m))
      (sorted-All u64_mod (values m) (values-All m h)))

all_covered :
    (s : List ℕ) (m : GoMap ℕ)
    → IsSorted 0 s
    → ((c : ℕ) → OneOf c (values m) → OneOf c s)
    → AllCovered 0 (compact_from 0 s) m
unfolding values
all_covered s [] h holds = tt
all_covered s ((k, c) ∷ m) h holds = (
  compact_from-IsCovered c 0 s h (inr (holds c (inl refl))),
  all_covered s m h (λ d r. holds d (inr r)),
)

pub levels-AllCovered : (m : GoMap ℕ) → total m < u64_mod → AllCovered 0 (levels m) m
levels-AllCovered m h = rw (levels-eq m h) (
    all_covered (sorted (values m)) m (sorted-IsSorted (values m)) (λ c. sorted-OneOf c (values m)))
