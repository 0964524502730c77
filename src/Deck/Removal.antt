-- ===== src/Deck/Removal.antt =====
-- Taking named cards out of a hand: card.go's RemoveOne and RemoveEach.
use terminal_card.Base.{◌+◌, true, ◌-◌, ◌≡◌, refl, List, [], ◌∷◌, arith, if◌then◌else◌}
use terminal_card.Deck.{Card, contains_card, card_eq, remove_one, remove_each}
use terminal_card.Deck.Bag.{count}

remove_one-nil : (c : Card) → remove_one [] c ≡ []
unfolding remove_one
remove_one-nil c = refl

-- RemoveOne by recursion on the hand.
remove_one-cons :
    (x c : Card) (xs : List Card)
    → remove_one (x ∷ xs) c ≡ (if card_eq x c then xs else x ∷ remove_one xs c)
unfolding remove_one
remove_one-cons x c xs = ground arith

-- RemoveOne takes out one copy of its card, if the hand holds one, and no other card.
pub count-remove_one :
    (d : Card) (hand : List Card) (c : Card)
    → count d (remove_one hand c) ≡ count d hand - (if card_eq c d then 1 else 0)
unfolding count
count-remove_one d [] c = rw (remove_one-nil c) (omega arith)
count-remove_one d (x ∷ xs) c =
    rw (remove_one-cons x c xs) (ground (arith, count-remove_one d xs c))

-- RemoveEach takes out as many copies of each card as are named, as far as the hand holds them.
pub count-remove_each :
    (d : Card) (hand cs : List Card) → count d (remove_each hand cs) ≡ count d hand - count d cs
unfolding count remove_each
count-remove_each d hand [] = omega arith
count-remove_each d hand (c ∷ cs) =
    omega (arith, count-remove_each d (remove_one hand c) cs, count-remove_one d hand c)

-- A card that the hand holds and RemoveOne puts elsewhere is not lost.
pub count-remove_one_held :
    (d : Card) (hand : List Card) (c : Card)
    → contains_card c hand ≡ true
    → count d (remove_one hand c) + count d (c ∷ []) ≡ count d hand
unfolding contains_card count
count-remove_one_held d [] c h = cc
count-remove_one_held d (x ∷ xs) c h =
    rw (remove_one-cons x c xs) (ground (arith, count-remove_one_held d xs c))
