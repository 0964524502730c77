-- ===== src/CrazyEight/Laws.antt =====
-- Crazy Eights loses no card.
use terminal_card.Base.{
  ℕ, ◌≡◌, refl, ap, sym, subst, ◌∙◌, inl, inr, true, Option, none, some, List, [], ◌∷◌, ◌++◌, arith,
  Bool-cases, Option-cases, get_elem?,
}
use terminal_card.Base.Int.{ℤ, pos, negsuc}
use terminal_card.Deck.{Card, Pile, Shuffler, peek, draw, contains_card, remove_one}
use terminal_card.Deck.Bag.{count, count-append}
use terminal_card.Deck.Drawing.{draw-cases}
use terminal_card.Deck.Removal.{count-remove_one_held}
use terminal_card.Game.{Player, seat}
use terminal_card.Game.Cards.{held, discarded, table_count, held-set_hand}
use terminal_card.Game.Shed.{RefillError, refill}
use terminal_card.Game.Shed.Laws.{count-add_card, refill-table_count, players-refill}
use terminal_card.CrazyEight.{
  State, Table, Action, validate_card, validate_on, validate_in, validate_action, apply_play,
  draw_into, apply_draw, apply_by, apply_at, apply_in, apply_action,
}

-- What the rules accept is a card of the player on turn.
validate_card-held :
    (x : State) (hand : List Card) (card : Card) (suit : ℕ) (top : Card)
    → validate_card x hand card suit top ≡ none
    → contains_card card hand ≡ true
unfolding validate_card
validate_card-held x hand card suit top h = elim (Bool-cases (contains_card card hand)) [
  | inl held ↦ held
  | inr missing ↦ absurd (ground arith)
]

draw_into-table_count :
    (c : Card) (t : Table) (x : State) (i : ℕ) (p : Player)
    → get_elem? t.players i ≡ some p
    → table_count c (draw_into t x i p (draw t.deck)).0 ≡ table_count c t
unfolding draw_into table_count count
draw_into-table_count c t x i p h = elim (draw-cases t.deck) [
  | inl (dry, empty) ↦
      subst (λ d. table_count c (draw_into t x i p d).0 ≡ table_count c t) (sym dry) refl
  | inr (q, card, drawn, whole) ↦
      subst (λ d. table_count c (draw_into t x i p d).0 ≡ table_count c t) (sym drawn)
        (omega (
          arith,
          ap (count c) whole,
          count-append c q.cards (card ∷ []),
          count-append c p.cards (card ∷ []),
          held-set_hand c i (p.cards ++ card ∷ []) t.players p h,
        ))
]

validate_on-held :
    (t : Table) (x : State) (card : Card) (suit : ℕ) (p : Player) (top : Option Card)
    → seat t.current_turn t.players ≡ some p
    → validate_on t x card suit top ≡ none
    → contains_card card p.cards ≡ true
unfolding validate_on
validate_on-held t x card suit p none on_turn h = cc
validate_on-held t x card suit p (some top) on_turn h =
    validate_card-held x p.cards card suit top (rw (on_turn, validate_on) at h)

validate_in-held :
    (t : Table) (x : State) (card : Card) (suit : ℕ) (p : Player)
    → seat t.current_turn t.players ≡ some p
    → validate_in t (some x) (Action.play_card card suit) ≡ none
    → contains_card card p.cards ≡ true
unfolding validate_in validate_on
validate_in-held t x card suit p on_turn h = elim (Option-cases t.discard) [
  | inl nil ↦ absurd (ground arith)
  | inr (d, own) ↦ validate_on-held t x card suit p (peek d) on_turn (rw own at h)
]

apply_play-table_count :
    (c : Card) (t : Table) (i : ℕ) (p : Player) (card : Card) (suit : ℕ) (o : Option Pile)
    → t.discard ≡ o
    → get_elem? t.players i ≡ some p
    → contains_card card p.cards ≡ true
    → table_count c (apply_play t i p card suit o).0 ≡ table_count c t
unfolding apply_play table_count discarded
apply_play-table_count c t i p card suit none own h held = refl
apply_play-table_count c t i p card suit (some d) own h held = rw own (
    omega (
      arith,
      count-add_card c d (card ∷ []),
      count-remove_one_held c p.cards card held,
      held-set_hand c i (remove_one p.cards card) t.players p h,
    ))

apply_draw-table_count :
    (c : Card) (x : State) (i : ℕ) (p : Player) (t : Table) (r : Table × Option RefillError)
    → table_count c r.0 ≡ table_count c t
    → get_elem? r.0.players i ≡ some p
    → table_count c (apply_draw x i p r).0 ≡ table_count c t
unfolding apply_draw
apply_draw-table_count c x i p t (u, some err) same h = same
apply_draw-table_count c x i p t (u, none) same h = draw_into-table_count c u x i p h ∙ same

apply_by-table_count :
    (sh : Shuffler) (c : Card) (t : Table) (x : State) (i : ℕ) (p : Player) (a : Action)
    → get_elem? t.players i ≡ some p
    → t.current_turn ≡ pos i
    → validate_in t (some x) a ≡ none
    → table_count c (apply_by sh t x i p a).0 ≡ table_count c t
unfolding apply_by
apply_by-table_count sh c t x i p (Action.play_card card suit) h turn ok =
    apply_play-table_count c t i p card suit t.discard refl h
      (validate_in-held t x card suit p (rw turn h) ok)
apply_by-table_count sh c t x i p Action.draw_card h turn ok =
    apply_draw-table_count c x i p t (refill sh t) (refill-table_count sh c t)
      (ap (λ ps. get_elem? ps i) (players-refill sh t) ∙ h)
apply_by-table_count sh c t x i p Action.foreign h turn ok = refl

apply_at-table_count :
    (sh : Shuffler) (c : Card) (t : Table) (x : State) (i : ℤ) (a : Action)
    → t.current_turn ≡ i
    → validate_in t (some x) a ≡ none
    → table_count c (apply_at sh t x i a).0 ≡ table_count c t
unfolding apply_at
apply_at-table_count sh c t x (negsuc i) a turn ok = refl
apply_at-table_count sh c t x (pos i) a turn ok = elim (Option-cases (get_elem? t.players i)) [
  | inl nobody ↦ rw (nobody, apply_at) refl
  | inr (p, sits) ↦ rw (sits, apply_at) (apply_by-table_count sh c t x i p a sits turn ok)
]

apply_in-table_count :
    (sh : Shuffler) (c : Card) (t : Table) (o : Option State) (a : Action)
    → validate_in t o a ≡ none
    → table_count c (apply_in sh t o a).0 ≡ table_count c t
unfolding apply_in
apply_in-table_count sh c t none a ok = refl
apply_in-table_count sh c t (some x) a ok = apply_at-table_count sh c t x t.current_turn a refl ok

-- A move that the rules of Crazy Eights accept loses no card and makes none: stock, discard pile and
-- hands together hold each card as often as before.
pub crazy_apply_action-table_count :
    (sh : Shuffler) (c : Card) (t : Table) (a : Action)
    → validate_action t a ≡ none
    → table_count c (apply_action sh t a).0 ≡ table_count c t
unfolding validate_action apply_action
crazy_apply_action-table_count sh c t a ok = apply_in-table_count sh c t t.extra a ok
