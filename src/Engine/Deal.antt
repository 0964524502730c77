-- ===== src/Engine/Deal.antt =====
-- Start: the deal loses no card, and a start that fails gives the table back.
use terminal_card.Base.{
  ℕ, ◌+◌, ◌≡◌, refl, ap, ◌∙◌, ◌⊎◌, inl, inr, Option, none, some, List, [], ◌∷◌, arith, length, All,
  Bool-cases, Option-cases, ◌==◌,
}
use terminal_card.Base.Int.{ℤ, pos}
use terminal_card.Deck.{Card, Pile, Shuffler, shuffle_pile, draw_n_cards}
use terminal_card.Deck
use terminal_card.Deck.Bag.{count, count-shuffle}
use terminal_card.Deck.Drawing.{draw_n_cards_conserves}
use terminal_card.Game.Cards.{held}
use terminal_card.Game.{Player, State, Phase, Rules, is_waiting}
use terminal_card.Engine.{Engine, Error}
use terminal_card.Engine.Laws.{ids}
use terminal_card.Engine.Starting.{
  deal_hands, drop_hands, roll_back, set_up, seat_first, open_table, start, crypto_int_n,
}

-- What holds of a deal that served every seat.
pub record IsDeal (n : ℤ) (ps : List Player) (deck left : Pile) (dealt : List Player) : Type 0 where
  pub conserved : (c : Card) → count c left.cards + held c dealt ≡ count c deck.cards
  pub same_ids : ids dealt ≡ ids ps
  pub same_size : All (λ p. n ≡ pos (length p.cards)) dealt

deal_hands-IsDeal :
    (n : ℤ) (ps : List Player) (deck left : Pile) (dealt : List Player)
    → deal_hands n ps deck ≡ (left, some dealt)
    → IsDeal n ps deck left dealt
unfolding deal_hands held
deal_hands-IsDeal n [] deck left dealt h =
    let none_dealt : dealt ≡ [] = ground arith in
    let all_left : left ≡ deck = ground arith in
    rw (none_dealt, all_left)
      (record { conserved = λ c. omega arith; same_ids = refl; same_size = tt })
deal_hands-IsDeal n (p ∷ ps) deck left dealt h =
    let first = draw_n_cards deck n in
    let others = deal_hands n ps first.0 in
    elim (Option-cases first.1) [
      | inl out ↦ absurd (ground arith)
      | inr (hand, e) ↦ elim (Option-cases others.1) [
        | inl out ↦ absurd (ground arith)
        | inr (rest, f) ↦
            let d = deal_hands-IsDeal n ps first.0 others.0 rest (ap (λ o. (others.0, o)) f) in
            let (drawn, size) =
              draw_n_cards_conserves deck first.0 n hand (ap (λ o. (first.0, o)) e) in
            let dealt_is : dealt ≡ record p { cards = hand } ∷ rest = ground arith in
            let left_is : left ≡ others.0 = ground arith in
            rw (dealt_is, left_is)
              (record {
                conserved = λ c. omega (arith, d.conserved c, drawn c);
                same_ids = ap (◌∷◌ p.id) d.same_ids;
                same_size = (size, d.same_size);
              })
      ]
    ]

-- If dealing from the shuffled deck serves every seat, the hands and the stock together hold each
-- card as often as the deck did, the seats are the same, and every hand has the size asked for.
pub deal_hands-shuffle_pile-IsDeal :
    (sh : Shuffler) (n : ℤ) (ps : List Player) (deck left : Pile) (dealt : List Player)
    → deal_hands n ps (shuffle_pile sh deck) ≡ (left, some dealt)
    → IsDeal n ps deck left dealt
unfolding shuffle_pile
deal_hands-shuffle_pile-IsDeal sh n ps deck left dealt h =
    let d = deal_hands-IsDeal n ps (shuffle_pile sh deck) left dealt h in
    record {
      conserved = λ c. d.conserved c ∙ count-shuffle sh c deck.cards;
      same_ids = d.same_ids;
      same_size = d.same_size;
    }

-- A table as Start found it, ready for another try: the cards are all in the stock, in the order
-- they had, no hand is dealt, and no turn is set.
pub record IsRestored {X : Type 0} (before after : State X) : Type 0 where
  pub stock : after.deck.cards ≡ before.deck.cards
  pub hands : All (λ p. p.cards ≡ []) after.players
  pub no_discard : after.discard ≡ none
  pub waiting : after.phase ≡ Phase.waiting
  pub turn : after.current_turn ≡ pos 0

drop_hands-empty : (ps : List Player) → All (λ p. p.cards ≡ []) (drop_hands ps)
unfolding drop_hands
drop_hands-empty [] = tt
drop_hands-empty (p ∷ ps) = (refl, drop_hands-empty ps)

module _ {X : Type 0} where
  roll_back-IsRestored : (s t : State X) → IsRestored t (roll_back t.deck.cards s)
  unfolding roll_back Deck.new
  roll_back-IsRestored s t = record {
    stock = refl;
    hands = drop_hands-empty s.players;
    no_discard = refl;
    waiting = refl;
    turn = refl;
  }

module _ {X A E : Type 0} (rules : Rules X A E) (now : ℤ) where
  -- A step of Start at the table `e` succeeds, or restores the table.
  abbrev Restores : Engine X → Engine X × Option (Error E) → Type 0
  Restores e r = (r.1 ≡ none) ⊎ (IsRestored e.state r.0.state)

  set_up-Restores :
      (r : State X × Option E) (e : Engine X) → Restores e (set_up rules now e.state.deck.cards r e)
  unfolding set_up
  set_up-Restores (s, some err) e = inr (roll_back-IsRestored s e.state)
  set_up-Restores (s, none) e = inl refl

  seat_first-Restores :
      (deck : Pile) (dealt : List Player) (first : Option ℕ) (e : Engine X)
      → Restores e (seat_first rules now e.state.deck.cards deck dealt first e)
  unfolding seat_first
  seat_first-Restores deck dealt none e = inr (roll_back-IsRestored e.state e.state)
  seat_first-Restores deck dealt (some i) e = set_up-Restores _ e

  open_table-Restores :
      (rand : ℕ → Option ℕ) (r : Pile × Option (List Player)) (e : Engine X)
      → Restores e (open_table rules now rand e.state.deck.cards r e)
  unfolding open_table
  open_table-Restores rand (deck, none) e = inr (roll_back-IsRestored e.state e.state)
  open_table-Restores rand (deck, some dealt) e =
      seat_first-Restores deck dealt (crypto_int_n rand (length e.state.players)) e

  -- Start reports no error, or leaves the engine as it was, or restores the table: the cards back
  -- in the stock, the hands empty, no discard, the phase waiting and the turn 0.
  pub start_outcomes :
      (sh : Shuffler) (rand : ℕ → Option ℕ) (e : Engine X)
      → ((start rules now sh rand e).1 ≡ none)
        ⊎ ((start rules now sh rand e).0 ≡ e)
        ⊎ (IsRestored e.state (start rules now sh rand e).0.state)
  unfolding start
  start_outcomes sh rand e = elim (Bool-cases e.is_closed) [
    | inl shut ↦ simp shut (inr (inl refl))
    | inr still ↦ simp still (elim (Bool-cases (is_waiting e.state.phase)) [
      | inr begun ↦ simp begun (inr (inl refl))
      | inl fresh ↦ simp fresh (elim (Bool-cases (length e.state.players == 0)) [
        | inl empty ↦ simp empty (inr (inl refl))
        | inr seated ↦ simp seated (either (open_table-Restores rand _ e))
      ])
    ])
  ]
    where
      either :
          {r : Engine X × Option (Error E)}
          → Restores e r
          → (r.1 ≡ none) ⊎ (r.0 ≡ e) ⊎ (IsRestored e.state r.0.state)
      either (inl opened) = inl opened
      either (inr restored) = inr (inr restored)
