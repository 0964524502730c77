-- ===== src/Game/Cards.antt =====
-- The cards of a table: the stock, the discard pile and the hands at the seats.
use terminal_card.Base.{
  ◌<◌, length, ℕ, zero, suc, ◌+◌, ◌≡◌, refl, Option, none, some, List, [], ◌∷◌, ◌++◌, arith,
  get_elem?, map, ap,
}
use terminal_card.Deck.{Card, Pile}
use terminal_card.Deck.Bag.{count, count-append}
use terminal_card.Game.{Player, State}

-- How often the players hold a card.
unfoldable pub held : Card → List Player → ℕ
held c [] = 0
held c (p ∷ ps) = count c p.cards + held c ps

-- The cards of a discard pile that may be nil.
unfoldable pub discarded : Option Pile → List Card
discarded none = []
discarded (some d) = d.cards

-- How often a card lies on the table or is held at a seat.
unfoldable pub table_count : {X : Type 0} → Card → State X → ℕ
table_count c s = count c s.deck.cards + count c (discarded s.discard) + held c s.players

-- state.Players[i].Cards = cards.
unfoldable pub set_hand : ℕ → List Card → List Player → List Player
set_hand i cards [] = []
set_hand zero cards (p ∷ ps) = record p { cards = cards } ∷ ps
set_hand (suc i) cards (p ∷ ps) = p ∷ set_hand i cards ps

pub held-set_hand :
    (c : Card) (i : ℕ) (cards : List Card) (ps : List Player) (p : Player)
    → get_elem? ps i ≡ some p
    → held c (set_hand i cards ps) + count c p.cards ≡ held c ps + count c cards
unfolding held set_hand
held-set_hand c i cards [] p h = cc
held-set_hand c zero cards (q ∷ ps) p h = let same : q ≡ p = ground arith in rw same (omega arith)
held-set_hand c (suc i) cards (q ∷ ps) p h = omega (arith, held-set_hand c i cards ps p h)

pub ids-set_hand :
    (i : ℕ) (cards : List Card) (ps : List Player)
    → map (λ p. p.id) (set_hand i cards ps) ≡ map (λ p. p.id) ps
unfolding set_hand
ids-set_hand i cards [] = refl
ids-set_hand zero cards (q ∷ ps) = refl
ids-set_hand (suc i) cards (q ∷ ps) = ap (◌∷◌ q.id) (ids-set_hand i cards ps)

-- state.Players[i].Cards = append(state.Players[i].Cards, cards...).
unfoldable pub append_hand : ℕ → List Card → List Player → List Player
append_hand i cards [] = []
append_hand zero cards (p ∷ ps) = record p { cards = p.cards ++ cards } ∷ ps
append_hand (suc i) cards (p ∷ ps) = p ∷ append_hand i cards ps

pub held-append_hand :
    (c : Card) (i : ℕ) (cards : List Card) (ps : List Player)
    → i < length ps
    → held c (append_hand i cards ps) ≡ held c ps + count c cards
unfolding held append_hand
held-append_hand c i cards [] h = absurd (omega arith)
held-append_hand c zero cards (p ∷ ps) h = omega (arith, count-append c p.cards cards)
held-append_hand c (suc i) cards (p ∷ ps) h = omega (arith, held-append_hand c i cards ps)

pub ids-append_hand :
    (i : ℕ) (cards : List Card) (ps : List Player)
    → map (λ p. p.id) (append_hand i cards ps) ≡ map (λ p. p.id) ps
unfolding append_hand
ids-append_hand i cards [] = refl
ids-append_hand zero cards (p ∷ ps) = refl
ids-append_hand (suc i) cards (p ∷ ps) = ap (◌∷◌ p.id) (ids-append_hand i cards ps)

pub length-append_hand :
    (i : ℕ) (cards : List Card) (ps : List Player) → length (append_hand i cards ps) ≡ length ps
unfolding append_hand
length-append_hand i cards [] = refl
length-append_hand zero cards (p ∷ ps) = refl
length-append_hand (suc i) cards (p ∷ ps) = ap suc (length-append_hand i cards ps)
