-- ===== src/Deck/Drawing.antt =====
-- Taking cards off a pile and putting them on it: deck.go's Draw, DrawNCards and AddCard.
use mathlib.Core.List.{reverse-append, reverse-cons, reverse-reverse}
use mathlib.Core.Option
use terminal_card.Base.{
  Bool-cases, inl, inr, ◌⊎◌, true, ℕ, zero, suc, ◌+◌, ◌-◌, ◌≤◌, ◌≡◌, refl, ap, none, some, List, [],
  ◌∷◌, ◌++◌, reverse, arith, length, take, drop, length-append, length-drop, min, take-append-drop,
  ltb,
}
use terminal_card.Base.Int.{ℤ, pos, negsuc}
use terminal_card.Deck.{Card, Pile, split_last, draw, draw_n_cards, draw_top, add_card, new}
use terminal_card.Deck.Bag.{count, count-append, count-reverse}

pub split_last-append : (xs : List Card) (c : Card) → split_last (xs ++ c ∷ []) ≡ some (xs, c)
unfolding split_last
split_last-append [] c = refl
split_last-append (x ∷ xs) c = rw (split_last-append xs c)

-- A card put on a pile is the one drawn next, and the pile is as it was.
pub draw-add_card : (p : Pile) (c : Card) → draw (add_card p (c ∷ [])) ≡ (p, some c)
unfolding draw add_card
draw-add_card p c = rw (split_last-append p.cards c, draw)

take-append_le :
    (n : ℕ) (xs : List Card) (c : Card) → n ≤ length xs → take n (xs ++ c ∷ []) ≡ take n xs
take-append_le zero xs c h = refl
take-append_le (suc n) [] c h = absurd (omega arith)
take-append_le (suc n) (x ∷ xs) c h = ap (◌∷◌ x) (take-append_le n xs c (omega arith))

drop-append_le :
    (n : ℕ) (xs : List Card) (c : Card)
    → n ≤ length xs
    → drop n (xs ++ c ∷ []) ≡ drop n xs ++ c ∷ []
drop-append_le zero xs c h = refl
drop-append_le (suc n) [] c h = absurd (omega arith)
drop-append_le (suc n) (x ∷ xs) c h = drop-append_le n xs c (omega arith)

length-reverse : (xs : List Card) → length (reverse xs) ≡ length xs
length-reverse [] = refl
length-reverse (x ∷ xs) =
    rw (reverse-cons x xs) (omega (arith, length-append (reverse xs) (x ∷ []), length-reverse xs))

drop_all_but : (n : ℕ) (xs : List Card) → length (drop (length xs - n) xs) ≡ min n (length xs)
drop_all_but n xs = omega (arith, length-drop (length xs - n) xs)

-- For a count that the pile can serve, DrawNCards returns so many cards, and these put back in
-- reverse give the pile as it was: they are the top cards, topmost first.
pub draw_n_cards_splits :
    (p : Pile) (n : ℕ)
    → n ≤ length p.cards
    → (hand : List Card) × (q : Pile) × (draw_n_cards p (pos n) ≡ (q, some hand))
      × (q.cards ++ reverse hand ≡ p.cards)
      × (length hand ≡ n)
unfolding draw_n_cards
draw_n_cards_splits p n h = (
  reverse (drop (length p.cards - n) p.cards),
  record { cards = take (length p.cards - n) p.cards },
  ground arith,
  rw (reverse-reverse (drop (length p.cards - n) p.cards))
      (take-append-drop (length p.cards - n) p.cards),
  omega (arith, length-reverse (drop (length p.cards - n) p.cards), drop_all_but n p.cards),
)

-- DrawNCards takes the top card and then as many as are left to take: it is Draw repeated.
draw_n_cards-suc :
    (xs : List Card) (c : Card) (n : ℕ)
    → n ≤ length xs
    → draw_n_cards (new (xs ++ c ∷ [])) (pos (suc n))
      ≡ ((draw_n_cards (new xs) (pos n)).0, Option.map (◌∷◌ c) (draw_n_cards (new xs) (pos n)).1)
unfolding draw_n_cards draw_top new
draw_n_cards-suc xs c n h =
    let longer : length (xs ++ c ∷ []) ≡ suc (length xs) =
      omega (arith, length-append xs (c ∷ [])) in
    let kept : suc (length xs) - suc n ≡ length xs - n = omega arith in
    rw (longer, draw_n_cards, kept)
      (rw
        (
          take-append_le (length xs - n) xs c (omega arith),
          drop-append_le (length xs - n) xs c (omega arith),
          reverse-append (drop (length xs - n) xs) (c ∷ []),
        )
        (ground arith))

draw_top_short : (p : Pile) (n : ℕ) → ltb (length p.cards) n ≡ true → draw_top p n ≡ (p, none)
unfolding draw_top
draw_top_short p n h = simp h

-- What DrawNCards hands out and what it leaves make up the pile, and the hand has as many cards as
-- were asked for.
pub draw_n_cards_conserves :
    (p q : Pile) (n : ℤ) (hand : List Card)
    → draw_n_cards p n ≡ (q, some hand)
    → ((c : Card) → count c q.cards + count c hand ≡ count c p.cards) × (n ≡ pos (length hand))
unfolding draw_n_cards
draw_n_cards_conserves p q (negsuc n) hand h = cc
draw_n_cards_conserves p q (pos n) hand h = elim (Bool-cases (ltb (length p.cards) n)) [
  | inl short ↦ absurd (ground (arith, draw_top_short p n short))
  | inr enough ↦
      let (drawn, left, e, whole, size) = draw_n_cards_splits p n (ground arith) in
      let same_hand : hand ≡ drawn = ground arith in
      let same_pile : q ≡ left = ground arith in
      (
        λ c.
            rw (same_hand, same_pile)
              (omega (
                arith,
                ap (count c) whole,
                count-append c left.cards (reverse drawn),
                count-reverse c drawn,
              )),
        rw (same_hand, size),
      )
]

split_last-cases :
    (xs : List Card)
    → ((split_last xs ≡ none) × (xs ≡ []))
      ⊎ ((r : List Card) × (l : Card) × (split_last xs ≡ some (r, l)) × (xs ≡ r ++ l ∷ []))
unfolding split_last
split_last-cases [] = inl (refl, refl)
split_last-cases (x ∷ xs) = elim (split_last-cases xs) [
  | inl (dry, empty) ↦ inr ([], x, rw dry refl, ap (◌∷◌ x) empty)
  | inr (r, l, e, whole) ↦ inr (x ∷ r, l, rw e refl, ap (◌∷◌ x) whole)
]

-- Draw finds an empty pile, or takes the last card of it.
pub draw-cases :
    (p : Pile)
    → ((draw p ≡ (p, none)) × (p.cards ≡ []))
      ⊎ ((q : Pile) × (c : Card) × (draw p ≡ (q, some c)) × (p.cards ≡ q.cards ++ c ∷ []))
unfolding draw
draw-cases p = elim (split_last-cases p.cards) [
  | inl (dry, empty) ↦ inl (rw (dry, draw) refl, empty)
  | inr (r, l, e, whole) ↦ inr (record { cards = r }, l, rw (e, draw) refl, whole)
]
