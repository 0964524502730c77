-- ===== src/Uno/Laws/Hooks.antt =====
-- The hooks of Uno leave the seats and the phase to the engine.
use terminal_card.Base.{
  ℕ, ◌≡◌, refl, ap, ◌∙◌, inl, inr, ◌||◌, not, Option, none, some, ◌==◌, ltb, length, get_elem?,
  Bool-cases, Option-cases,
}
use terminal_card.Base.Int.{ℤ, pos, negsuc, ltb_ℤ}
use terminal_card.Deck.{Card, Pile, Shuffler}
use terminal_card.Game.{Player}
use terminal_card.Game.Shed.{open_discard}
use terminal_card.Game.Shed.Laws.{return_hand-SameTable}
use terminal_card.Game.Shed.Opening.{open_discard-SameTable}
use terminal_card.Engine.Laws.{ids, KeepsTable, SameTable, SameTable-refl}
use terminal_card.Engine.Leaving.{on_leave, after_removed}
use terminal_card.Uno.{State, Table, Action, skip, reverse_rank, draw_two}
use terminal_card.Uno.Moves.{
  set_first, open_draw_two, apply_opening_card, opens, opened, fresh_state, on_game_start, set_next,
  voluntary, apply_voluntary_draw, play_by, play_at, apply_in, apply_action, leave_in,
  on_player_leave, removed_in, after_player_removed, uno_rules,
}
use terminal_card.Uno.Laws.{draw_cards_into-SameTable}
use terminal_card.Uno.Laws.Moving.{phase-after_rank}

module _ (sh : Shuffler) where
  phase-play_by :
      (t : Table) (x : State) (i : ℕ) (p : Player) (card : Card) (chosen : ℕ) (o : Option Pile)
      → (play_by sh t x i p card chosen o).0.phase ≡ t.phase
  unfolding play_by
  phase-play_by t x i p card chosen none = refl
  phase-play_by t x i p card chosen (some d) = phase-after_rank sh _ _ card.rank

  phase-play_at :
      (t : Table) (x : State) (i : ℤ) (card : Card) (chosen : ℕ)
      → (play_at sh t x i card chosen).0.phase ≡ t.phase
  unfolding play_at
  phase-play_at t x (negsuc i) card chosen = refl
  phase-play_at t x (pos i) card chosen = elim (Option-cases (get_elem? t.players i)) [
    | inl nobody ↦ rw (nobody, play_at) refl
    | inr (p, sits) ↦ rw (sits, play_at) (phase-play_by t x i p card chosen t.discard)
  ]

  phase-apply_in :
      (t : Table) (o : Option State) (a : Action) → (apply_in sh t o a).0.phase ≡ t.phase
  unfolding apply_in apply_voluntary_draw voluntary set_next
  phase-apply_in t none a = refl
  phase-apply_in t (some x) (Action.play_card card chosen) =
      phase-play_at t x t.current_turn card chosen
  phase-apply_in t (some x) Action.draw_card =
      (draw_cards_into-SameTable sh t t.current_turn 1).same_phase
  phase-apply_in t (some x) Action.foreign = refl

  set_first-SameTable :
      (t u : Table) (i : ℤ) (y : State) → SameTable t u → SameTable t (set_first i u y)
  unfolding set_first
  set_first-SameTable t u i y same = record {
    same_ids = same.same_ids;
    same_left = same.same_left;
    same_phase = same.same_phase;
  }

  phase-apply_opening_card :
      (t : Table) (x : State) (card : Card) → (apply_opening_card sh t x card).phase ≡ t.phase
  unfolding apply_opening_card open_draw_two set_first
  phase-apply_opening_card t x card = elim (Bool-cases (card.rank == skip)) [
    | inl a ↦ rw (a, apply_opening_card) refl
    | inr a ↦ elim (Bool-cases (card.rank == draw_two)) [
      | inl b ↦
          rw (a, apply_opening_card, b) (draw_cards_into-SameTable sh t t.current_turn 2).same_phase
      | inr b ↦ elim (Bool-cases (card.rank == reverse_rank)) [
        | inl d ↦ elim (Bool-cases (length t.players == 2)) [
          | inl two ↦ rw (a, apply_opening_card, b, d, two) refl
          | inr more ↦ rw (a, apply_opening_card, b, d, more) refl
        ]
        | inr d ↦ rw (a, apply_opening_card, b, d) refl
      ]
    ]
  ]

  phase-opened :
      (x : State) (t : Table) (r : Option (Table × Option Card))
      → ((v : Table × Option Card) → r ≡ some v → SameTable t v.0)
      → (opened sh x r t).0.phase ≡ t.phase
  unfolding opened
  phase-opened x t none h = refl
  phase-opened x t (some (v, none)) h = (h (v, none) refl).same_phase
  phase-opened x t (some (v, some top)) h =
      phase-apply_opening_card v _ top ∙ (h (v, some top) refl).same_phase

  phase-on_game_start : (t : Table) → (on_game_start sh t).0.phase ≡ t.phase
  unfolding on_game_start
  phase-on_game_start t =
      let fresh : Table = record t { extra = some fresh_state } in
      phase-opened fresh_state fresh (open_discard sh opens fresh)
        (open_discard-SameTable sh opens fresh)

  leave_in-SameTable : (t : Table) (o : Option State) (pid : ℕ) → SameTable t (leave_in sh t o pid)
  unfolding leave_in
  leave_in-SameTable t none pid = SameTable-refl t
  leave_in-SameTable t (some x) pid =
      let same = return_hand-SameTable sh (record t { extra = some _ }) pid in
      record { same_ids = same.same_ids; same_left = same.same_left; same_phase = same.same_phase }

removed_in-SameTable : (t : Table) (o : Option State) (i : ℕ) → SameTable t (removed_in t o i)
unfolding removed_in set_first
removed_in-SameTable t none i = SameTable-refl t
removed_in-SameTable t (some x) i =
    elim (Bool-cases
      (not x.leaver_was_on_turn || not (ltb_ℤ x.direction (pos 0)) || ltb (length t.players) 2)) [
        | inl stays ↦
            rw (stays, removed_in) (record { same_ids = refl; same_left = refl; same_phase = refl })
        | inr moves ↦
            rw (moves, removed_in) (record { same_ids = refl; same_left = refl; same_phase = refl })
      ]

-- The hooks of Uno keep what the engine's theorems ask of a game.
pub uno_rules-KeepsTable : (sh : Shuffler) → KeepsTable (uno_rules sh)
unfolding on_leave after_removed apply_action on_player_leave after_player_removed
uno_rules-KeepsTable sh = record {
  phase-on_game_start = λ t. phase-on_game_start sh t;
  phase-apply_action = λ t a. phase-apply_in sh t t.extra a;
  phase-after_action = λ t a. refl;
  phase-on_leave = λ t pid. (leave_in-SameTable sh t t.extra pid).same_phase;
  phase-after_removed = λ t i. (removed_in-SameTable t t.extra i).same_phase;
  ids-on_leave = λ t pid. (leave_in-SameTable sh t t.extra pid).same_ids;
  ids-after_removed = λ t i. (removed_in-SameTable t t.extra i).same_ids;
  left-on_leave = λ t pid. ap ids (leave_in-SameTable sh t t.extra pid).same_left;
  left-after_removed = λ t i. ap ids (removed_in-SameTable t t.extra i).same_left;
}
