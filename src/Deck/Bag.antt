-- ===== src/Deck/Bag.antt =====
-- Piles and hands as bags of cards: how often each card is held.
use mathlib.Core.List.{Perm, Permᴰ}
use mathlib.Core.Logic.{∥∥₁_elim}
use native.Mathlib.Nat.{ℕ_set}
use terminal_card.Base.{ℕ, ◌+◌, ◌≡◌, refl, ◌∙◌, List, [], ◌∷◌, ◌++◌, reverse, arith, if◌then◌else◌}
use mathlib.Core.List.{reverse-cons}
use terminal_card.Deck.{Card, Shuffler, card_eq}

unfoldable pub count : Card → List Card → ℕ
count c [] = 0
count c (x ∷ xs) = (if card_eq x c then 1 else 0) + count c xs

pub count-append : (c : Card) (xs ys : List Card) → count c (xs ++ ys) ≡ count c xs + count c ys
unfolding count
count-append c [] ys = omega arith
count-append c (x ∷ xs) ys = omega (arith, count-append c xs ys)

pub count-reverse : (c : Card) (xs : List Card) → count c (reverse xs) ≡ count c xs
unfolding count
count-reverse c [] = refl
count-reverse c (x ∷ xs) =
    rw (reverse-cons x xs) (omega (arith, count-append c (reverse xs) (x ∷ []), count-reverse c xs))

count-permᴰ : (c : Card) {xs ys : List Card} → Permᴰ xs ys → count c xs ≡ count c ys
unfolding count
count-permᴰ c Permᴰ.nil = refl
count-permᴰ c (Permᴰ.cons e p) = rw e (omega (arith, count-permᴰ c p))
count-permᴰ c (Permᴰ.swap e f) = rw (e, f) (omega arith)
count-permᴰ c (Permᴰ.trans p q) = count-permᴰ c p ∙ count-permᴰ c q

pub count-perm : (c : Card) {xs ys : List Card} → Perm xs ys → count c xs ≡ count c ys
count-perm c p = ∥∥₁_elim p (ℕ_set _ _) (count-permᴰ c)

pub count-shuffle :
    (sh : Shuffler) (c : Card) (xs : List Card) → count c (sh.shuffle xs) ≡ count c xs
count-shuffle sh c xs = count-perm c (sh.shuffle-perm xs)
