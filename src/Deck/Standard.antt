-- ===== src/Deck/Standard.antt =====
-- The standard deck (builder.go) and the values of the ranks (card.go).
use terminal_card.Base.{ℕ, zero, suc, ◌+◌, ◌≡◌, ◌&&◌, arith, leb, ltb, ◌==◌, if◌then◌else◌}
use terminal_card.Deck.{suit_cards, deck_from, standard_deck, is_suit, ace, king}
use terminal_card.Deck.Bag.{count, count-append}

count-suit_cards :
    (r s s' lo k : ℕ)
    → count (record { rank = r; suit = s }) (suit_cards s' lo k)
      ≡ (if (s' == s) && leb lo r && ltb r (lo + k) then 1 else 0)
unfolding count suit_cards
count-suit_cards r s s' lo zero = ground arith
count-suit_cards r s s' lo (suc k) = ground (arith, count-suit_cards r s s' (lo + 1) k)

count-deck_from :
    (r s s' k : ℕ)
    → count (record { rank = r; suit = s }) (deck_from s' k)
      ≡ (if leb ace r && leb r king && leb s' s && ltb s (s' + k) then 1 else 0)
unfolding count deck_from
count-deck_from r s s' zero = ground arith
count-deck_from r s s' (suc k) =
    rw
      (
        count-append (record { rank = r; suit = s }) (suit_cards s' ace king)
            (deck_from (s' + 1) k),
        count-suit_cards r s s' ace king,
        count-deck_from r s (s' + 1) k,
      )
      (ground arith)

is_suit_range : (s : ℕ) → is_suit s ≡ (leb 1 s && ltb s 5)
unfolding is_suit
is_suit_range s = ground arith

-- The standard deck holds each card of a rank from ace to king in one of the four suits once, and no
-- other card.
pub count-standard_deck :
    (r s : ℕ)
    → count (record { rank = r; suit = s }) standard_deck
      ≡ (if leb ace r && leb r king && is_suit s then 1 else 0)
unfolding standard_deck
count-standard_deck r s = rw (count-deck_from r s 1 4, is_suit_range s) (ground arith)
