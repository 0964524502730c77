-- ===== src/Deck.antt =====
-- internal/deck: cards (card.go), piles (deck.go) and the standard deck (builder.go).
-- A rank or a suit is its uint8 value; a pile is the slice of its cards, the top card last.
pub mod Bag
pub mod Drawing
pub mod Removal
pub mod Standard
use mathlib.Core.List.{Perm}
use terminal_card.Base.{
  ℕ, zero, suc, ◌+◌, ◌-◌, min, ◌≡◌, Bool, true, false, ◌&&◌, ◌||◌, Option, none, some, List, [],
  ◌∷◌, ◌++◌, reverse, ltb, leb, ◌==◌, if◌then◌else◌, length, drop, take, erase_at,
}
use terminal_card.Base.Int.{ℤ, pos, negsuc}

pub record Card : Type 0 where
  pub rank : ℕ
  pub suit : ℕ

-- The zero Card, which is nobody's card.
abbrev pub no_card : Card
no_card = record { rank = 0; suit = 0 }

abbrev pub spades : ℕ
spades = 1

abbrev pub hearts : ℕ
hearts = 2

abbrev pub diamonds : ℕ
diamonds = 3

abbrev pub clubs : ℕ
clubs = 4

abbrev pub ace : ℕ
ace = 1

abbrev pub two : ℕ
two = 2

abbrev pub king : ℕ
king = 13

abbrev pub card_eq : Card → Card → Bool
card_eq a b = (a.rank == b.rank) && (a.suit == b.suit)

unfoldable pub rank_value : ℕ → ℕ
rank_value r = if r == ace then 14 else if leb two r && leb r king then r else 0

unfoldable pub run_order : ℕ → ℕ
run_order r = if ltb r ace || ltb king r then 0 else r

unfoldable pub pip_value : ℕ → ℕ
unfolding run_order
pip_value r = min (run_order r) 10

unfoldable pub is_suit : ℕ → Bool
is_suit s = (s == spades) || (s == hearts) || (s == diamonds) || (s == clubs)

-- slices.Index: the first place of a card, if it has one.
unfoldable pub index : Card → List Card → Option ℕ
index c [] = none
index c (x ∷ xs) =
    let rest = index c xs in
    if card_eq x c then some 0 else elim rest [ none ↦ none | some i ↦ some (suc i) ]

-- slices.Contains.
unfoldable pub contains_card : Card → List Card → Bool
contains_card c [] = false
contains_card c (x ∷ xs) = card_eq x c || contains_card c xs

unfoldable pub remove_one : List Card → Card → List Card
unfolding index
remove_one hand c = elim (index c hand) [ none ↦ hand | some i ↦ erase_at i hand ]

unfoldable pub remove_each : List Card → List Card → List Card
remove_each hand [] = hand
remove_each hand (c ∷ cs) = remove_each (remove_one hand c) cs

-- A pile; `cards` in the order of the slice.
pub record Pile : Type 0 where
  pub cards : List Card

unfoldable pub new : List Card → Pile
new cs = record { cards = cs }

-- math/rand/v2's Shuffle, seeded from crypto/rand. What the code relies on is that it permutes.
pub record Shuffler : Type 0 where
  pub shuffle : List Card → List Card
  pub shuffle-perm : (cs : List Card) → Perm (shuffle cs) cs

unfoldable pub shuffle_pile : Shuffler → Pile → Pile
shuffle_pile sh p = record { cards = sh.shuffle p.cards }

-- The last card of a slice and what stands before it.
unfoldable pub split_last : List Card → Option (List Card × Card)
split_last [] = none
split_last (c ∷ cs) = elim (split_last cs) [ none ↦ some ([], c) | some (r, l) ↦ some (c ∷ r, l) ]

unfoldable pub peek : Pile → Option Card
unfolding split_last
peek p = elim (split_last p.cards) [ none ↦ none | some (r, l) ↦ some l ]

unfoldable pub draw : Pile → Pile × Option Card
draw p = elim (split_last p.cards) [
  | none ↦ (p, none)
  | some (r, l) ↦ (record { cards = r }, some l)
]

draw_top : Pile → ℕ → Pile × Option (List Card)
draw_top p n =
    if ltb (length p.cards) n
    then (p, none)
    else let split = length p.cards - n in
      (record { cards = take split p.cards }, some (reverse (drop split p.cards)))

-- DrawNCards, with the count an int.
unfoldable pub draw_n_cards : Pile → ℤ → Pile × Option (List Card)
unfolding draw_top
draw_n_cards p (pos n) = draw_top p n
draw_n_cards p (negsuc n) = (p, none)

unfoldable pub add_card : Pile → List Card → Pile
add_card p cs = record { cards = p.cards ++ cs }

unfoldable pub size : Pile → ℕ
size p = length p.cards

unfoldable pub is_empty : Pile → Bool
is_empty p = ltb (length p.cards) 1

-- The inner loop of StandardDeck, over the ranks from `r` on.
suit_cards : ℕ → ℕ → ℕ → List Card
suit_cards s r zero = []
suit_cards s r (suc k) = record { rank = r; suit = s } ∷ suit_cards s (r + 1) k

-- The outer loop, over the suits from `s` on.
deck_from : ℕ → ℕ → List Card
unfolding suit_cards
deck_from s zero = []
deck_from s (suc k) = suit_cards s ace king ++ deck_from (s + 1) k

unfoldable pub standard_deck : List Card
unfolding deck_from
standard_deck = deck_from spades clubs
