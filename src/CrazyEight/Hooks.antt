-- ===== src/CrazyEight/Hooks.antt =====
-- The hooks of Crazy Eights leave the seats and the phase to the engine.
use terminal_card.Base.{
  ℕ, ◌≡◌, refl, ap, ◌∙◌, inl, inr, Option, none, some, Option-cases, get_elem?,
}
use terminal_card.Base.Int.{ℤ, pos, negsuc}
use terminal_card.Deck.{Card, Pile, Shuffler, draw}
use terminal_card.Game.{Player}
use terminal_card.Game.Shed.{RefillError, refill, open_discard}
use terminal_card.Game.Shed.Laws.{refill-SameTable, return_hand-SameTable}
use terminal_card.Game.Shed.Opening.{open_discard-SameTable}
use terminal_card.Engine.Laws.{ids, KeepsTable, SameTable, SameTable-refl}
use terminal_card.Engine.Leaving.{on_leave, after_removed}
use terminal_card.CrazyEight.{
  State, Table, Action, opens, opened, on_game_start, apply_play, draw_into, apply_draw, apply_by,
  apply_at, apply_in, apply_action, leave_in, on_player_leave, crazy_rules,
}

-- Opening the discard pile leaves the seats, the leavers and the phase.
opened-SameTable :
    (t : Table) (r : Option (Table × Option Card))
    → ((v : Table × Option Card) → r ≡ some v → SameTable t v.0)
    → SameTable t (opened r t).0
unfolding opened
opened-SameTable t none h = SameTable-refl t
opened-SameTable t (some (v, none)) h = h (v, none) refl
opened-SameTable t (some (v, some top)) h =
    let s = h (v, some top) refl in
    record { same_ids = s.same_ids; same_left = s.same_left; same_phase = s.same_phase }

on_game_start-SameTable : (sh : Shuffler) (t : Table) → SameTable t (on_game_start sh t).0
unfolding on_game_start
on_game_start-SameTable sh t =
    let fresh : Table = record t { extra = some (record { passes = 0; current_suit = 0 }) } in
    let same =
      opened-SameTable fresh (open_discard sh opens fresh)
        (open_discard-SameTable sh opens fresh) in
    record { same_ids = same.same_ids; same_left = same.same_left; same_phase = same.same_phase }

phase-apply_play :
    (t : Table) (i : ℕ) (p : Player) (card : Card) (suit : ℕ) (o : Option Pile)
    → (apply_play t i p card suit o).0.phase ≡ t.phase
unfolding apply_play
phase-apply_play t i p card suit none = refl
phase-apply_play t i p card suit (some d) = refl

phase-draw_into :
    (t : Table) (x : State) (i : ℕ) (p : Player) (d : Pile × Option Card)
    → (draw_into t x i p d).0.phase ≡ t.phase
unfolding draw_into
phase-draw_into t x i p (left, none) = refl
phase-draw_into t x i p (left, some card) = refl

phase-apply_draw :
    (x : State) (i : ℕ) (p : Player) (r : Table × Option RefillError)
    → (apply_draw x i p r).0.phase ≡ r.0.phase
unfolding apply_draw
phase-apply_draw x i p (t, some err) = refl
phase-apply_draw x i p (t, none) = phase-draw_into t x i p (draw t.deck)

phase-apply_by :
    (sh : Shuffler) (t : Table) (x : State) (i : ℕ) (p : Player) (a : Action)
    → (apply_by sh t x i p a).0.phase ≡ t.phase
unfolding apply_by
phase-apply_by sh t x i p (Action.play_card card suit) = phase-apply_play t i p card suit t.discard
phase-apply_by sh t x i p Action.draw_card =
    phase-apply_draw x i p (refill sh t) ∙ (refill-SameTable sh t).same_phase
phase-apply_by sh t x i p Action.foreign = refl

phase-apply_at :
    (sh : Shuffler) (t : Table) (x : State) (i : ℤ) (a : Action)
    → (apply_at sh t x i a).0.phase ≡ t.phase
unfolding apply_at
phase-apply_at sh t x (negsuc i) a = refl
phase-apply_at sh t x (pos i) a = elim (Option-cases (get_elem? t.players i)) [
  | inl nobody ↦ rw (nobody, apply_at) refl
  | inr (p, sits) ↦ rw (sits, apply_at) (phase-apply_by sh t x i p a)
]

phase-apply_in :
    (sh : Shuffler) (t : Table) (o : Option State) (a : Action)
    → (apply_in sh t o a).0.phase ≡ t.phase
unfolding apply_in
phase-apply_in sh t none a = refl
phase-apply_in sh t (some x) a = phase-apply_at sh t x t.current_turn a

leave_in-SameTable :
    (sh : Shuffler) (t : Table) (o : Option State) (pid : ℕ) → SameTable t (leave_in sh t o pid)
unfolding leave_in
leave_in-SameTable sh t none pid = SameTable-refl t
leave_in-SameTable sh t (some x) pid =
    let u : Table = record t { extra = some (record x { passes = 0 }) } in
    let same = return_hand-SameTable sh u pid in
    record { same_ids = same.same_ids; same_left = same.same_left; same_phase = same.same_phase }

-- The hooks of Crazy Eights keep what the engine's theorems ask of a game.
pub crazy_rules-KeepsTable : (sh : Shuffler) → KeepsTable (crazy_rules sh)
unfolding on_leave after_removed apply_action on_player_leave
crazy_rules-KeepsTable sh = record {
  phase-on_game_start = λ t. (on_game_start-SameTable sh t).same_phase;
  phase-apply_action = λ t a. phase-apply_in sh t t.extra a;
  phase-after_action = λ t a. refl;
  phase-on_leave = λ t pid. (leave_in-SameTable sh t t.extra pid).same_phase;
  phase-after_removed = λ t i. refl;
  ids-on_leave = λ t pid. (leave_in-SameTable sh t t.extra pid).same_ids;
  ids-after_removed = λ t i. refl;
  left-on_leave = λ t pid. ap ids (leave_in-SameTable sh t t.extra pid).same_left;
  left-after_removed = λ t i. refl;
}
