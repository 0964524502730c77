-- ===== src/Examples/Decks.antt =====
-- internal/deck at concrete piles.
use terminal_card.Base.{
  ℕ, ◌-◌, leb, ◌&&◌, ◌≡◌, refl, some, List, [], ◌∷◌, ◌++◌, reverse, arith, length, if◌then◌else◌,
}
use terminal_card.Base.Int.{pos}
use terminal_card.Deck.{
  Card, Pile, draw, draw_n_cards, add_card, standard_deck, remove_each, ace, king, is_suit,
}
use terminal_card.Deck.Bag.{count}
use terminal_card.Deck.Drawing.{draw_n_cards_splits, draw-add_card}
use terminal_card.Deck.Removal.{count-remove_each}
use terminal_card.Deck.Standard.{count-standard_deck}

abbrev card : ℕ → ℕ → Card
card r s = record { rank = r; suit = s }

abbrev three_cards : List Card
three_cards = card 1 1 ∷ card 12 2 ∷ card 7 3 ∷ []

draws_two :
    draw_n_cards (record { cards = three_cards }) (pos 2)
    ≡ (record { cards = card 1 1 ∷ [] }, some (card 7 3 ∷ card 12 2 ∷ []))
unfolding draw_n_cards
draws_two = refl

full_deck : length standard_deck ≡ 52
unfolding standard_deck
full_deck = refl

draw_n_cards_splits_example :
    (hand : List Card) × (q : Pile) × (draw_n_cards (record { cards = three_cards }) (pos 2)
      ≡ (q, some hand))
    × (q.cards ++ reverse hand ≡ three_cards)
    × (length hand ≡ 2)
draw_n_cards_splits_example = draw_n_cards_splits (record { cards = three_cards }) 2 (omega arith)

draw-add_card_example :
    draw (add_card (record { cards = three_cards }) (card 9 4 ∷ []))
    ≡ (record { cards = three_cards }, some (card 9 4))
draw-add_card_example = draw-add_card (record { cards = three_cards }) (card 9 4)

count-remove_each_example :
    count (card 12 2) (remove_each three_cards (card 12 2 ∷ card 12 2 ∷ []))
    ≡ count (card 12 2) three_cards - count (card 12 2) (card 12 2 ∷ card 12 2 ∷ [])
count-remove_each_example = count-remove_each (card 12 2) three_cards (card 12 2 ∷ card 12 2 ∷ [])

count-standard_deck_example :
    count (record { rank = 13; suit = 4 }) standard_deck
    ≡ (if leb ace 13 && leb 13 king && is_suit 4 then 1 else 0)
count-standard_deck_example = count-standard_deck 13 4
