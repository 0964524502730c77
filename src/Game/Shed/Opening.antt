-- ===== src/Game/Shed/Opening.antt =====
-- OpenDiscard ends, opens on a card that may open, and loses no card.
use mathlib.Core.Option
use terminal_card.Base.{
  ℕ, zero, suc, ◌+◌, ◌<◌, ◌≡◌, refl, ap, sym, subst, ◌∙◌, ◌⊎◌, ◌||◌, inl, inr, Bool, true, false,
  Option, none, some, List, [], ◌∷◌, ◌++◌, arith, length, length-append, Bool-cases,
}
use terminal_card.Deck.{Card, Pile, Shuffler, draw, add_card, new}
use terminal_card.Deck.Bag.{count, count-append}
use terminal_card.Deck.Drawing.{draw-cases}
use terminal_card.Game.{State}
use terminal_card.Game.Cards.{discarded, table_count}
use terminal_card.Game.Shed.{open_on, open_round, open_from, open_discard}
use terminal_card.Game.Shed.Laws.{count-shuffle_pile, count-add_card}
use terminal_card.Engine.Laws.{SameTable, SameTable-trans}

-- Whether the stock holds a card that may open.
unfoldable pub any_playable : (Card → Bool) → List Card → Bool
any_playable playable [] = false
any_playable playable (c ∷ cs) = playable c || any_playable playable cs

any_playable-append :
    (playable : Card → Bool) (cs : List Card) (c : Card)
    → playable c ≡ false
    → any_playable playable cs ≡ false
    → any_playable playable (cs ++ c ∷ []) ≡ false
unfolding any_playable
any_playable-append playable [] c no_c no_cs = rw (no_c, any_playable) refl
any_playable-append playable (d ∷ cs) c no_c no_cs = elim (Bool-cases (playable d)) [
  | inl may ↦ absurd (ground (arith, may, no_cs))
  | inr may_not ↦
      let rest : any_playable playable cs ≡ false = rw (may_not, any_playable) at no_cs in
      rw (may_not, any_playable) (any_playable-append playable cs c no_c rest)
]

-- What a run of the loop leaves that began with `aside` set aside.
pub record IsOpened {X : Type 0} (playable : Card → Bool) (aside : List Card) (s : State X)
    (r : State X × Option Card) : Type 0 where
  pub conserved : (c : Card) → table_count c r.0 ≡ table_count c s + count c aside
  pub same : SameTable s r.0
  pub opened :
      ((r.1 ≡ none) × (any_playable playable s.deck.cards ≡ false))
      ⊎ ((card : Card) × (r.1 ≡ some card)
          × (playable card ≡ true)
          × (r.0.discard ≡ some (new (card ∷ []))))

module _ {X : Type 0} (sh : Shuffler) (playable : Card → Bool) where
  -- The stock once its last card is drawn.
  abbrev left_with : State X → Pile → State X
  left_with s q = record s { deck = q }

  open_on-IsOpened :
      (aside : List Card) (card : Card) (s : State X) (q : Pile)
      → s.discard ≡ none
      → s.deck.cards ≡ q.cards ++ card ∷ []
      → playable card ≡ true
      → IsOpened playable aside s (open_on sh playable aside card (left_with s q), some card)
  unfolding open_on table_count discarded new count
  open_on-IsOpened [] card s q nil whole ok = record {
    conserved = λ c. rw (nil, whole) (omega (arith, count-append c q.cards (card ∷ [])));
    same = record { same_ids = refl; same_left = refl; same_phase = refl };
    opened = inr (card, refl, ok, refl);
  }
  open_on-IsOpened (a ∷ aside) card s q nil whole ok = record {
    conserved = λ c.
        rw (nil, whole)
          (omega (
            arith,
            count-append c q.cards (card ∷ []),
            count-shuffle_pile sh c (add_card q (a ∷ aside)),
            count-add_card c q (a ∷ aside),
          ));
    same = record { same_ids = refl; same_left = refl; same_phase = refl };
    opened = inr (card, refl, ok, refl);
  }

  open_from-IsOpened :
      (n : ℕ) (aside : List Card) (s : State X)
      → length s.deck.cards < n
      → s.discard ≡ none
      → (r : State X × Option Card) × (open_from sh playable n aside s ≡ some r)
        × IsOpened playable aside s r
  unfolding open_from open_round table_count any_playable
  open_from-IsOpened zero aside s h nil = absurd (omega arith)
  open_from-IsOpened (suc n) aside s h nil = elim (draw-cases s.deck) [
    | inl (dry, empty) ↦ (
      (record s { deck = add_card s.deck aside }, none),
      subst
          (λ d.
            open_round sh playable (open_from sh playable n) aside s d
            ≡ some (record s { deck = add_card s.deck aside }, none))
          (sym dry) refl,
      record {
        conserved = λ c. omega (arith, count-add_card c s.deck aside);
        same = record { same_ids = refl; same_left = refl; same_phase = refl };
        opened = inl (refl, rw empty refl);
      },
    )
    | inr (q, card, drawn, whole) ↦ elim (Bool-cases (playable card)) [
      | inl ok ↦ (
        (open_on sh playable aside card (left_with s q), some card),
        subst
            (λ d.
              open_round sh playable (open_from sh playable n) aside s d
              ≡ some (open_on sh playable aside card (left_with s q), some card))
            (sym drawn) (rw ok refl),
        open_on-IsOpened aside card s q nil whole ok,
      )
      | inr refused ↦
          let shorter : length s.deck.cards ≡ suc (length q.cards) =
            ap length whole ∙ omega (arith, length-append q.cards (card ∷ [])) in
          let (r, e, o) =
            open_from-IsOpened n (aside ++ card ∷ []) (left_with s q) (omega arith) nil in
          (
            r,
            subst (λ d. open_round sh playable (open_from sh playable n) aside s d ≡ some r)
                (sym drawn) (rw refused e),
            record {
              conserved = λ c. omega (
                arith,
                o.conserved c,
                ap (count c) whole,
                count-append c q.cards (card ∷ []),
                count-append c aside (card ∷ []),
              );
              same =
                  SameTable-trans s (left_with s q) r.0
                    (record { same_ids = refl; same_left = refl; same_phase = refl }) o.same;
              opened = elim o.opened [
                | inl (failed, none_left) ↦
                    inl (
                      failed,
                      rw whole (any_playable-append playable q.cards card refused none_left),
                    )
                | inr found ↦ inr found
              ];
            },
          )
    ]
  ]

  -- OpenDiscard at a table without a discard pile ends within its fuel: it loses no card, keeps the seats
  -- and the phase, and opens on a card that may open, or reports an error where the stock holds none.
  pub open_discard-IsOpened :
      (s : State X)
      → s.discard ≡ none
      → (r : State X × Option Card) × (open_discard sh playable s ≡ some r)
        × IsOpened playable [] s r
  unfolding open_discard
  open_discard-IsOpened s nil =
      open_from-IsOpened (suc (length s.deck.cards)) [] s (omega arith) nil

module _ {X : Type 0} (sh : Shuffler) (playable : Card → Bool) where
  open_on-SameTable :
      (aside : List Card) (card : Card) (s : State X) (q : Pile)
      → SameTable s (open_on sh playable aside card (record s { deck = q }))
  unfolding open_on
  open_on-SameTable [] card s q = record { same_ids = refl; same_left = refl; same_phase = refl }
  open_on-SameTable (a ∷ aside) card s q = record {
    same_ids = refl;
    same_left = refl;
    same_phase = refl;
  }

  open_round-SameTable :
      (more : List Card → State X → Option (State X × Option Card))
      → ((aside : List Card) (s : State X) (r : State X × Option Card)
          → more aside s ≡ some r
          → SameTable s r.0)
      → (aside : List Card) (s : State X) (d : Pile × Option Card) (r : State X × Option Card)
      → open_round sh playable more aside s d ≡ some r
      → SameTable s r.0
  unfolding open_round
  open_round-SameTable more k aside s (left, none) r h =
      subst (SameTable s) (ap (λ v. v.0) (Option.some_inj.0 h))
        (record { same_ids = refl; same_left = refl; same_phase = refl })
  open_round-SameTable more k aside s (left, some card) r h = elim (Bool-cases (playable card)) [
    | inl ok ↦
        subst (SameTable s) (ap (λ v. v.0) (Option.some_inj.0 (rw ok at h)))
          (open_on-SameTable aside card s left)
    | inr refused ↦
        SameTable-trans s (record s { deck = left }) r.0
          (record { same_ids = refl; same_left = refl; same_phase = refl })
          (k (aside ++ card ∷ []) (record s { deck = left }) r (rw refused at h))
  ]

  open_from-SameTable :
      (n : ℕ) (aside : List Card) (s : State X) (r : State X × Option Card)
      → open_from sh playable n aside s ≡ some r
      → SameTable s r.0
  unfolding open_from
  open_from-SameTable zero aside s r h = cc
  open_from-SameTable (suc n) aside s r h =
      open_round-SameTable (open_from sh playable n) (open_from-SameTable n) aside s (draw s.deck) r
        h

  -- Opening the discard pile leaves the seats and the phase, on every path.
  pub open_discard-SameTable :
      (s : State X) (r : State X × Option Card)
      → open_discard sh playable s ≡ some r
      → SameTable s r.0
  unfolding open_discard
  open_discard-SameTable s r h = open_from-SameTable (suc (length s.deck.cards)) [] s r h
