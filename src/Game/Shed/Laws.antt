-- ===== src/Game/Shed/Laws.antt =====
-- Refilling the stock and returning a hand lose no card, and leave the seats to the engine.
use terminal_card.Base.{
  ℕ, ◌+◌, ◌≡◌, refl, ap, sym, subst, inl, inr, Option, none, some, List, [], ◌∷◌, ◌++◌, ◌==◌, arith,
  Bool-cases,
}
use terminal_card.Deck.{Card, Pile, Shuffler, shuffle_pile, add_card, is_empty, new}
use terminal_card.Deck.Bag.{count, count-append, count-shuffle}
use terminal_card.Deck.Drawing.{draw-cases}
use terminal_card.Game.{Player, State}
use terminal_card.Game.Cards.{held, discarded, table_count}
use terminal_card.Game.Shed.{
  reshuffle_below, reshuffle_from, reshuffle_discard, refill, take_hand, stock_hand, return_hand,
}
use terminal_card.Engine.Laws.{ids, SameTable, SameTable-refl}

pub count-shuffle_pile :
    (sh : Shuffler) (c : Card) (p : Pile) → count c (shuffle_pile sh p).cards ≡ count c p.cards
unfolding shuffle_pile
count-shuffle_pile sh c p = count-shuffle sh c p.cards

pub count-add_card :
    (c : Card) (p : Pile) (cs : List Card)
    → count c (add_card p cs).cards ≡ count c p.cards + count c cs
unfolding add_card
count-add_card c p cs = count-append c p.cards cs

held-take_hand :
    (c : Card) (pid : ℕ) (ps : List Player) (hand : List Card)
    → (take_hand pid ps).1 ≡ some hand
    → held c (take_hand pid ps).0 + count c hand ≡ held c ps
unfolding take_hand held count
held-take_hand c pid [] hand h = cc
held-take_hand c pid (p ∷ ps) hand h = elim (Bool-cases (p.id == pid)) [
  | inl here ↦ ground arith
  | inr later ↦ ground (arith, held-take_hand c pid ps hand)
]

ids-take_hand : (pid : ℕ) (ps : List Player) → ids (take_hand pid ps).0 ≡ ids ps
unfolding take_hand
ids-take_hand pid [] = refl
ids-take_hand pid (p ∷ ps) = elim (Bool-cases (p.id == pid)) [
  | inl here ↦ rw (here, take_hand) refl
  | inr later ↦ rw (later, take_hand) (ap (◌∷◌ p.id) (ids-take_hand pid ps))
]

module _ {X : Type 0} (sh : Shuffler) where
  -- The table after a reshuffle that found `rest` below the card in play.
  abbrev refilled : State X → Pile → Card → State X
  refilled s rest top = record s {
    discard = some (new (top ∷ []));
    deck = shuffle_pile sh (add_card s.deck rest.cards);
  }

  -- A reshuffle leaves the table, or refills the stock from the cards below the card in play.
  pub reshuffle_cases :
      (P : State X → Type 0) (s : State X)
      → P s
      → ((d q : Pile) (top : Card)
          → s.discard ≡ some d
          → d.cards ≡ q.cards ++ top ∷ []
          → P (refilled s q top))
      → P (reshuffle_discard sh s).0
  unfolding reshuffle_discard reshuffle_from reshuffle_below
  reshuffle_cases P s same more = elim (Bool-cases (is_empty s.deck)) [
    | inr full ↦ simp full same
    | inl empty ↦ simp empty (below s.discard refl)
  ]
    where
      below : (o : Option Pile) → s.discard ≡ o → P (reshuffle_from sh s o).0
      below none nil = same
      below (some d) own = elim (draw-cases d) [
        | inl (dry, gone) ↦ subst (λ r. P (reshuffle_below sh s r).0) (sym dry) same
        | inr (q, top, e, whole) ↦
            subst (λ r. P (reshuffle_below sh s r).0) (sym e) (more d q top own whole)
      ]

  -- The reshuffle loses no card, on every path.
  pub reshuffle_discard-table_count :
      (c : Card) (s : State X) → table_count c (reshuffle_discard sh s).0 ≡ table_count c s
  unfolding table_count discarded new count
  reshuffle_discard-table_count c s =
      reshuffle_cases (λ t. table_count c t ≡ table_count c s) s refl
        λ d q top own whole. rw own (
          rw whole (
            omega (
              arith,
              count-shuffle_pile sh c (add_card s.deck q.cards),
              count-add_card c s.deck q.cards,
              count-append c q.cards (top ∷ []),
            )))

  pub reshuffle_discard-SameTable : (s : State X) → SameTable s (reshuffle_discard sh s).0
  reshuffle_discard-SameTable s =
      reshuffle_cases (SameTable s) s (SameTable-refl s)
        λ d q top own whole. record { same_ids = refl; same_left = refl; same_phase = refl }

  pub refill-table_count :
      (c : Card) (s : State X) → table_count c (refill sh s).0 ≡ table_count c s
  unfolding refill
  refill-table_count c s = elim (Bool-cases (is_empty s.deck)) [
    | inl empty ↦ rw (empty, refill) (reshuffle_discard-table_count c s)
    | inr full ↦ rw (full, refill) refl
  ]

  pub refill-SameTable : (s : State X) → SameTable s (refill sh s).0
  unfolding refill
  refill-SameTable s = elim (Bool-cases (is_empty s.deck)) [
    | inl empty ↦ rw (empty, refill) (reshuffle_discard-SameTable s)
    | inr full ↦ rw (full, refill) (SameTable-refl s)
  ]

  -- Refilling the stock touches no hand.
  pub players-refill : (s : State X) → (refill sh s).0.players ≡ s.players
  unfolding refill
  players-refill s = elim (Bool-cases (is_empty s.deck)) [
    | inl empty ↦
        rw (empty, refill)
          (reshuffle_cases (λ t. t.players ≡ s.players) s refl λ d q top own whole. refl)
    | inr full ↦ rw (full, refill) refl
  ]

  pub return_hand-table_count :
      (c : Card) (s : State X) (pid : ℕ) → table_count c (return_hand sh s pid) ≡ table_count c s
  unfolding return_hand stock_hand table_count
  return_hand-table_count c s pid =
      stocked (take_hand pid s.players) (λ hand. held-take_hand c pid s.players hand)
    where
      stocked :
          (r : List Player × Option (List Card))
          → ((hand : List Card) → r.1 ≡ some hand → held c r.0 + count c hand ≡ held c s.players)
          → table_count c (stock_hand sh s r) ≡ table_count c s
      stocked (ps, none) h = refl
      stocked (ps, some hand) h = omega (
        arith,
        h hand refl,
        count-shuffle_pile sh c (add_card s.deck hand),
        count-add_card c s.deck hand,
      )

  pub return_hand-SameTable : (s : State X) (pid : ℕ) → SameTable s (return_hand sh s pid)
  unfolding return_hand stock_hand
  return_hand-SameTable s pid = stocked (take_hand pid s.players) (ids-take_hand pid s.players)
    where
      stocked :
          (r : List Player × Option (List Card))
          → ids r.0 ≡ ids s.players
          → SameTable s (stock_hand sh s r)
      stocked (ps, none) h = SameTable-refl s
      stocked (ps, some hand) h = record { same_ids = h; same_left = refl; same_phase = refl }
