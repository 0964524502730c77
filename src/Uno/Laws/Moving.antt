-- ===== src/Uno/Laws/Moving.antt =====
-- Uno loses no card.
use terminal_card.Base.{
  ℕ, ◌≡◌, refl, ◌∙◌, inl, inr, true, Option, none, some, List, [], ◌∷◌, ◌==◌, arith, length,
  get_elem?, Bool-cases, Option-cases,
}
use terminal_card.Base.Int.{ℤ, pos, negsuc}
use terminal_card.Deck.{Card, Pile, Shuffler, peek, contains_card, remove_one}
use terminal_card.Deck.Removal.{count-remove_one_held}
use terminal_card.Game.{Player, seat}
use terminal_card.Game.Cards.{held, discarded, table_count, held-set_hand}
use terminal_card.Game.Shed.Laws.{count-add_card}
use terminal_card.Uno.{
  State, Table, Action, skip, reverse_rank, draw_two, wild_draw_four, advance, draw_cards_into,
  validate_card, validate_on, validate_in, validate_action,
}
use terminal_card.Uno.Moves.{
  set_next, apply_reverse, forced, apply_forced_draw, voluntary, apply_voluntary_draw, after_rank,
  play_by, play_at, apply_in, apply_action,
}
use terminal_card.Uno.Laws.{draw_cards_into-SameTable, draw_cards_into-table_count}

-- What the rules accept is a card of the player on turn.
validate_card-held :
    (x : State) (hand : List Card) (card : Card) (chosen : ℕ) (top : Card)
    → validate_card x hand card chosen top ≡ none
    → contains_card card hand ≡ true
unfolding validate_card
validate_card-held x hand card chosen top h = elim (Bool-cases (contains_card card hand)) [
  | inl held ↦ held
  | inr missing ↦ absurd (ground arith)
]

validate_on-held :
    (t : Table) (x : State) (card : Card) (chosen : ℕ) (p : Player) (top : Option Card)
    → seat t.current_turn t.players ≡ some p
    → validate_on t x card chosen top ≡ none
    → contains_card card p.cards ≡ true
unfolding validate_on
validate_on-held t x card chosen p none on_turn h = cc
validate_on-held t x card chosen p (some top) on_turn h =
    validate_card-held x p.cards card chosen top (rw (on_turn, validate_on) at h)

validate_in-held :
    (t : Table) (x : State) (card : Card) (chosen : ℕ) (p : Player)
    → seat t.current_turn t.players ≡ some p
    → validate_in t (some x) (Action.play_card card chosen) ≡ none
    → contains_card card p.cards ≡ true
unfolding validate_in validate_on
validate_in-held t x card chosen p on_turn h = elim (Option-cases t.discard) [
  | inl nil ↦ absurd (ground arith)
  | inr (d, own) ↦ validate_on-held t x card chosen p (peek d) on_turn (rw own at h)
]

module _ (sh : Shuffler) where
  -- After a play the turn is set, on the table as it is or once the next seat has drawn.
  after_rank-cases :
      (P : Table → Type 0) (t : Table) (x : State) (rank : ℕ)
      → ((i : ℤ) (y : State) → P (set_next i t y))
      → ((i j : ℤ) (n : ℕ) (y : State) → P (set_next i (draw_cards_into sh t j n).0 y))
      → P (after_rank sh t x rank)
  unfolding after_rank apply_reverse apply_forced_draw forced
  after_rank-cases P t x rank plain drew = elim (Bool-cases (rank == skip)) [
    | inl a ↦ rw (a, after_rank) (plain _ _)
    | inr a ↦ elim (Bool-cases (rank == reverse_rank)) [
      | inl b ↦ elim (Bool-cases (length t.players == 2)) [
        | inl two ↦ rw (a, after_rank, b, two, apply_reverse) (plain _ _)
        | inr more ↦ rw (a, after_rank, b, more, apply_reverse) (plain _ _)
      ]
      | inr b ↦ elim (Bool-cases (rank == draw_two)) [
        | inl d ↦ rw (a, after_rank, b, d) (drew _ (advance t x 1) 2 _)
        | inr d ↦ elim (Bool-cases (rank == wild_draw_four)) [
          | inl w ↦ rw (a, after_rank, b, d, w) (drew _ (advance t x 1) 4 _)
          | inr w ↦ rw (a, after_rank, b, d, w) (plain _ _)
        ]
      ]
    ]
  ]

  after_rank-table_count :
      (c : Card) (t : Table) (x : State) (rank : ℕ)
      → table_count c (after_rank sh t x rank) ≡ table_count c t
  unfolding set_next table_count
  after_rank-table_count c t x rank =
      after_rank-cases (λ u. table_count c u ≡ table_count c t) t x rank (λ i y. refl)
        (λ i j n y. draw_cards_into-table_count sh c t j n)

  pub phase-after_rank :
      (t : Table) (x : State) (rank : ℕ) → (after_rank sh t x rank).phase ≡ t.phase
  unfolding set_next
  phase-after_rank t x rank =
      after_rank-cases (λ u. u.phase ≡ t.phase) t x rank (λ i y. refl)
        (λ i j n y. (draw_cards_into-SameTable sh t j n).same_phase)

  play_by-table_count :
      (c : Card) (t : Table) (x : State) (i : ℕ) (p : Player) (card : Card) (chosen : ℕ)
      (o : Option Pile)
      → t.discard ≡ o
      → get_elem? t.players i ≡ some p
      → contains_card card p.cards ≡ true
      → table_count c (play_by sh t x i p card chosen o).0 ≡ table_count c t
  unfolding play_by table_count discarded
  play_by-table_count c t x i p card chosen none own h held = refl
  play_by-table_count c t x i p card chosen (some d) own h held =
      after_rank-table_count c _ _ card.rank
      ∙ rw own (
          omega (
            arith,
            count-add_card c d (card ∷ []),
            count-remove_one_held c p.cards card held,
            held-set_hand c i (remove_one p.cards card) t.players p h,
          ))

  play_at-table_count :
      (c : Card) (t : Table) (x : State) (i : ℤ) (card : Card) (chosen : ℕ)
      → t.current_turn ≡ i
      → validate_in t (some x) (Action.play_card card chosen) ≡ none
      → table_count c (play_at sh t x i card chosen).0 ≡ table_count c t
  unfolding play_at
  play_at-table_count c t x (negsuc i) card chosen turn ok = refl
  play_at-table_count c t x (pos i) card chosen turn ok =
      elim (Option-cases (get_elem? t.players i)) [
        | inl nobody ↦ rw (nobody, play_at) refl
        | inr (p, sits) ↦
            rw (sits, play_at)
              (play_by-table_count c t x i p card chosen t.discard refl sits
                (validate_in-held t x card chosen p (rw turn sits) ok))
      ]

  apply_in-table_count :
      (c : Card) (t : Table) (o : Option State) (a : Action)
      → validate_in t o a ≡ none
      → table_count c (apply_in sh t o a).0 ≡ table_count c t
  unfolding apply_in apply_voluntary_draw voluntary set_next table_count
  apply_in-table_count c t none a ok = refl
  apply_in-table_count c t (some x) (Action.play_card card chosen) ok =
      play_at-table_count c t x t.current_turn card chosen refl ok
  apply_in-table_count c t (some x) Action.draw_card ok =
      draw_cards_into-table_count sh c t t.current_turn 1
  apply_in-table_count c t (some x) Action.foreign ok = refl

-- A move that the rules of Uno accept loses no card and makes none, with the cards that a DrawTwo or
-- WildDrawFour makes the next seat draw: stock, discard pile and hands together hold each card as
-- often as before.
pub uno_apply_action-table_count :
    (sh : Shuffler) (c : Card) (t : Table) (a : Action)
    → validate_action t a ≡ none
    → table_count c (apply_action sh t a).0 ≡ table_count c t
unfolding validate_action apply_action
uno_apply_action-table_count sh c t a ok = apply_in-table_count sh c t t.extra a ok
