-- ===== src/Uno/Laws.antt =====
-- internal/game/uno/rules.go: a draw takes its cards from the stock and leaves the seats to the engine.
pub mod Moving
pub mod Hooks
use terminal_card.Base.{
  ℕ, zero, suc, ◌+◌, ◌<◌, ◌≡◌, refl, ap, sym, subst, ◌∙◌, inl, inr, Bool, true, false, ◌||◌, not,
  Option, none, some, List, [], ◌∷◌, ◌++◌, ◌==◌, leb, arith, length, Bool-cases, Option-cases,
  if◌then◌else◌,
}
use terminal_card.Base.Int.{ℤ, pos, negsuc}
use terminal_card.Deck.{Card, Pile, Shuffler, draw}
use terminal_card.Deck.Bag.{count, count-append}
use terminal_card.Deck.Drawing.{draw-cases}
use terminal_card.Game.Cards.{
  held, table_count, append_hand, held-append_hand, ids-append_hand, length-append_hand,
}
use terminal_card.Game.Shed.{RefillError, refill}
use terminal_card.Game.Shed.Laws.{refill-table_count, refill-SameTable, players-refill}
use terminal_card.Engine.Laws.{SameTable, SameTable-refl, SameTable-trans}
use terminal_card.Uno.{Table, draw_round, draw_refilled, draw_loop, draw_cards_into}

module _ (sh : Shuffler) where
  draw_round-SameTable :
      (more : Table → Table × ℕ)
      → ((u : Table) → SameTable u (more u).0)
      → (i : ℕ) (t : Table) (d : Pile × Option Card) → SameTable t (draw_round sh more i t d).0
  unfolding draw_round
  draw_round-SameTable more same i t (left, none) = record {
    same_ids = refl;
    same_left = refl;
    same_phase = refl;
  }
  draw_round-SameTable more same i t (left, some card) =
      let ps = append_hand i (card ∷ []) t.players in
      let u : Table = record t { deck = left; players = ps } in
      SameTable-trans t u (more u).0
        (record {
          same_ids = ids-append_hand i (card ∷ []) t.players;
          same_left = refl;
          same_phase = refl;
        })
        (same u)

  draw_refilled-SameTable :
      (more : Table → Table × ℕ)
      → ((u : Table) → SameTable u (more u).0)
      → (i : ℕ) (r : Table × Option RefillError) → SameTable r.0 (draw_refilled sh more i r).0
  unfolding draw_refilled
  draw_refilled-SameTable more same i (t, some err) = SameTable-refl t
  draw_refilled-SameTable more same i (t, none) = draw_round-SameTable more same i t (draw t.deck)

  draw_loop-SameTable : (n i : ℕ) (t : Table) → SameTable t (draw_loop sh n i t).0
  unfolding draw_loop
  draw_loop-SameTable zero i t = SameTable-refl t
  draw_loop-SameTable (suc n) i t =
      SameTable-trans t (refill sh t).0 (draw_refilled sh (draw_loop sh n i) i (refill sh t)).0
        (refill-SameTable sh t)
        (draw_refilled-SameTable (draw_loop sh n i) (draw_loop-SameTable n i) i (refill sh t))

  pub draw_cards_into-SameTable :
      (t : Table) (i : ℤ) (n : ℕ) → SameTable t (draw_cards_into sh t i n).0
  unfolding draw_cards_into
  draw_cards_into-SameTable t (negsuc i) n = SameTable-refl t
  draw_cards_into-SameTable t (pos i) n = elim (Bool-cases (leb (length t.players) i || (n == 0))) [
    | inl skips ↦ rw (skips, draw_cards_into) (SameTable-refl t)
    | inr draws ↦ rw (draws, draw_cards_into) (draw_loop-SameTable n i t)
  ]

  module _ (c : Card) where
    draw_round-table_count :
        (more : Table → Table × ℕ) (i : ℕ)
        → ((u : Table) → i < length u.players → table_count c (more u).0 ≡ table_count c u)
        → (t : Table) → i < length t.players
        → table_count c (draw_round sh more i t (draw t.deck)).0 ≡ table_count c t
    unfolding draw_round table_count count
    draw_round-table_count more i same t seated = elim (draw-cases t.deck) [
      | inl (dry, empty) ↦
          subst (λ d. table_count c (draw_round sh more i t d).0 ≡ table_count c t) (sym dry) refl
      | inr (q, card, drawn, whole) ↦
          subst (λ d. table_count c (draw_round sh more i t d).0 ≡ table_count c t) (sym drawn)
            (omega (
              arith,
              same (record t { deck = q; players = append_hand i (card ∷ []) t.players })
                  (rw (length-append_hand i (card ∷ []) t.players) seated),
              ap (count c) whole,
              count-append c q.cards (card ∷ []),
              held-append_hand c i (card ∷ []) t.players seated,
            ))
    ]

    draw_refilled-table_count :
        (more : Table → Table × ℕ) (i : ℕ)
        → ((u : Table) → i < length u.players → table_count c (more u).0 ≡ table_count c u)
        → (r : Table × Option RefillError) → i < length r.0.players
        → table_count c (draw_refilled sh more i r).0 ≡ table_count c r.0
    unfolding draw_refilled
    draw_refilled-table_count more i same (t, some err) seated = refl
    draw_refilled-table_count more i same (t, none) seated =
        draw_round-table_count more i same t seated

    draw_loop-table_count :
        (n i : ℕ) (t : Table)
        → i < length t.players
        → table_count c (draw_loop sh n i t).0 ≡ table_count c t
    unfolding draw_loop
    draw_loop-table_count zero i t seated = refl
    draw_loop-table_count (suc n) i t seated =
        draw_refilled-table_count (draw_loop sh n i) i (draw_loop-table_count n i) (refill sh t)
          (rw (players-refill sh t) seated)
        ∙ refill-table_count sh c t

    pub draw_cards_into-table_count :
        (t : Table) (i : ℤ) (n : ℕ) → table_count c (draw_cards_into sh t i n).0 ≡ table_count c t
    unfolding draw_cards_into
    draw_cards_into-table_count t (negsuc i) n = refl
    draw_cards_into-table_count t (pos i) n =
        elim (Bool-cases (leb (length t.players) i || (n == 0))) [
          | inl skips ↦ rw (skips, draw_cards_into) refl
          | inr draws ↦ rw (draws, draw_cards_into) (draw_loop-table_count n i t (ground arith))
        ]
