-- ===== src/Poker/Roster/Hooks.antt =====
-- The hooks of the poker rules leave the seats, the leavers and the table's phase to the engine.
use terminal_card.Base.{
  ℕ, ◌≡◌, refl, ap, inl, inr, Option, none, some, [], ◌∷◌, ◌==◌, length, Bool-cases, Option-cases,
}
use terminal_card.Base.Int.{ℤ, pos, negsuc}
use terminal_card.Deck.{Shuffler}
use terminal_card.Game.{Player, seat}
use terminal_card.Engine.Laws.{ids, KeepsTable}
use terminal_card.Engine.Leaving.{on_leave, after_removed}
use terminal_card.Poker.{State, Table, contenders}
use terminal_card.Poker.Betting.{Action}
use terminal_card.Poker.Pots.{refund_contributions, award_uncontested}
use terminal_card.Poker.Streets.{Outcome, settle_and_advance, betting_round_complete}
use terminal_card.Poker.Hands.{finish_hand, begin_hand_or_finish, next_funded_seat}
use terminal_card.Poker.Match.{
  returned, set_turn, on_game_start, new_match, apply_action, apply_betting, apply_in, after_in,
  start_at, win_uncontested, sole, close_round, next_in_round, after_betting_action, after_action,
}
use terminal_card.Poker.Leaving.{
  on_player_leave, adjust_seats, settle_after_leave, settle_leave, after_player_removed, leave_in,
  removed_in, poker_rules,
}
use terminal_card.Engine.Laws.{SameTable, SameTable-refl, SameTable-trans}
use terminal_card.Poker.Roster.{StepKeeps, settle_and_advance-SameTable}
use terminal_card.Poker.Roster.Dealing.{
  finish_hand-SameTable, finished-SameTable, begin_hand_or_finish-SameTable,
}

close_round-SameTable :
    (t : Table) (o : Outcome) → SameTable t o.table → SameTable t (close_round o).table
unfolding close_round finish_hand
close_round-SameTable t o h = elim (Option-cases o.error) [
  | inr (e, failed) ↦ rw (failed, close_round) h
  | inl fine ↦ elim (Bool-cases o.match.hand_complete) [
    | inl over ↦ rw (fine, over, close_round) (finished-SameTable t o h)
    | inr still ↦
        rw (fine, still, close_round)
          (record { same_ids = h.same_ids; same_left = h.same_left; same_phase = h.same_phase })
  ]
]

settle_after_leave-SameTable :
    (t : Table) (o : Outcome) → SameTable t o.table → SameTable t (settle_after_leave o).table
unfolding settle_after_leave set_turn finish_hand
settle_after_leave-SameTable t o h = elim (Option-cases o.error) [
  | inr (e, failed) ↦
      rw (failed, settle_after_leave)
        (SameTable-trans t o.table _ h
          (finish_hand-SameTable o.table (refund_contributions o.match)))
  | inl fine ↦ elim (Bool-cases o.match.hand_complete) [
    | inl over ↦ rw (fine, over, settle_after_leave) (finished-SameTable t o h)
    | inr still ↦
        rw (fine, still, settle_after_leave)
          (record { same_ids = h.same_ids; same_left = h.same_left; same_phase = h.same_phase })
  ]
]

win_uncontested-SameTable : (p : Player) → StepKeeps (win_uncontested p)
unfolding win_uncontested
win_uncontested-SameTable p t x =
    finish_hand-SameTable t (record (award_uncontested p x) { winners = p ∷ [] })

after_betting_action-SameTable : StepKeeps after_betting_action
unfolding after_betting_action sole contenders
after_betting_action-SameTable t x = elim (Bool-cases x.hand_complete) [
  | inl over ↦ rw (over, after_betting_action) (SameTable-refl t)
  | inr still ↦ elim (Option-cases (sole (contenders t x))) [
    | inr (p, alone) ↦ rw (still, alone, after_betting_action) (win_uncontested-SameTable p t x)
    | inl several ↦ elim (Option-cases (next_in_round t x)) [
      | inr (next, owes) ↦
          rw (still, several, owes, after_betting_action)
            (record { same_ids = refl; same_left = refl; same_phase = refl })
      | inl done ↦
          rw (still, several, done, after_betting_action)
            (close_round-SameTable t (settle_and_advance t x) (settle_and_advance-SameTable t x))
    ]
  ]
]

settle_leave-SameTable : StepKeeps settle_leave
unfolding settle_leave set_turn sole contenders finish_hand
settle_leave-SameTable t x = elim (Bool-cases x.hand_complete) [
  | inl over ↦ rw (over, settle_leave) (finish_hand-SameTable t x)
  | inr still ↦ elim (Option-cases (sole (contenders t x))) [
    | inr (p, alone) ↦ rw (still, alone, settle_leave) (win_uncontested-SameTable p t x)
    | inl several ↦ elim (Bool-cases (betting_round_complete x t.players)) [
      | inl done ↦
          rw (still, several, done, settle_leave)
            (settle_after_leave-SameTable t (settle_and_advance t x)
              (settle_and_advance-SameTable t x))
      | inr owes ↦
          rw (still, several, owes, settle_leave)
            (record { same_ids = refl; same_left = refl; same_phase = refl })
    ]
  ]
]

returned-SameTable : (t : Table) (o : Outcome) → SameTable t o.table → SameTable t (returned o).0
unfolding returned
returned-SameTable t o h = record {
  same_ids = h.same_ids;
  same_left = h.same_left;
  same_phase = h.same_phase;
}

phase-apply_betting : (t : Table) (x : State) (a : Action) → (apply_betting t x a).0.phase ≡ t.phase
unfolding apply_betting
phase-apply_betting t x a = elim (Option-cases (seat t.current_turn t.players)) [
  | inl nobody ↦ rw (nobody, apply_betting) refl
  | inr (p, on_turn) ↦ rw (on_turn, apply_betting) refl
]

phase-apply_in : (t : Table) (o : Option State) (a : Action) → (apply_in t o a).0.phase ≡ t.phase
unfolding apply_in
phase-apply_in t none a = refl
phase-apply_in t (some x) Action.next_hand = refl
phase-apply_in t (some x) a = phase-apply_betting t x a

phase-apply_action : (t : Table) (a : Action) → (apply_action t a).0.phase ≡ t.phase
unfolding apply_action
phase-apply_action t a = phase-apply_in t t.extra a

after_in-SameTable :
    (sh : Shuffler) (t : Table) (o : Option State) (a : Action) → SameTable t (after_in sh t o a).0
unfolding after_in
after_in-SameTable sh t none a = SameTable-refl t
after_in-SameTable sh t (some x) Action.next_hand =
    let dealer = next_funded_seat t.players x x.dealer_index in
    returned-SameTable t (begin_hand_or_finish sh t x dealer)
      (begin_hand_or_finish-SameTable sh dealer t x)
after_in-SameTable sh t (some x) a =
    returned-SameTable t (after_betting_action t x) (after_betting_action-SameTable t x)

after_action-SameTable :
    (sh : Shuffler) (t : Table) (a : Action) → SameTable t (after_action sh t a).0
unfolding after_action
after_action-SameTable sh t a = after_in-SameTable sh t t.extra a

start_at-SameTable : (sh : Shuffler) (t : Table) (i : ℤ) → SameTable t (start_at sh t i).0
unfolding start_at
start_at-SameTable sh t (negsuc i) = SameTable-refl t
start_at-SameTable sh t (pos dealer) =
    returned-SameTable t (begin_hand_or_finish sh t (new_match t.players dealer) dealer)
      (begin_hand_or_finish-SameTable sh dealer t (new_match t.players dealer))

on_game_start-SameTable : (sh : Shuffler) (t : Table) → SameTable t (on_game_start sh t).0
unfolding on_game_start
on_game_start-SameTable sh t = elim (Bool-cases (length t.players == 0)) [
  | inl empty ↦ rw (empty, on_game_start) (SameTable-refl t)
  | inr seated ↦ rw (seated, on_game_start) (start_at-SameTable sh t t.current_turn)
]

leave_in-SameTable : (t : Table) (o : Option State) (pid : ℕ) → SameTable t (leave_in t o pid)
unfolding leave_in
leave_in-SameTable t none pid = SameTable-refl t
leave_in-SameTable t (some x) pid = record { same_ids = refl; same_left = refl; same_phase = refl }

removed_in-SameTable : (t : Table) (o : Option State) (i : ℕ) → SameTable t (removed_in t o i)
unfolding removed_in
removed_in-SameTable t none i = SameTable-refl t
removed_in-SameTable t (some x) i = elim (Bool-cases (length t.players == 0)) [
  | inl empty ↦ rw (empty, removed_in) (SameTable-refl t)
  | inr seated ↦
      let y = adjust_seats i (length t.players) x in
      rw (seated, removed_in) (returned-SameTable t (settle_leave t y) (settle_leave-SameTable t y))
]

on_player_leave-SameTable : (t : Table) (pid : ℕ) → SameTable t (on_player_leave t pid)
unfolding on_player_leave
on_player_leave-SameTable t pid = leave_in-SameTable t t.extra pid

after_player_removed-SameTable : (t : Table) (i : ℕ) → SameTable t (after_player_removed t i)
unfolding after_player_removed
after_player_removed-SameTable t i = removed_in-SameTable t t.extra i

-- The hooks of the poker rules keep what the engine's theorems ask of a game: they never change the
-- phase, and who sits at the table and who left it is the same after every hook for a leaver.
pub poker_rules-KeepsTable : (sh : Shuffler) → KeepsTable (poker_rules sh)
unfolding on_leave after_removed
poker_rules-KeepsTable sh = record {
  phase-on_game_start = λ t. (on_game_start-SameTable sh t).same_phase;
  phase-apply_action = phase-apply_action;
  phase-after_action = λ t a. (after_action-SameTable sh t a).same_phase;
  phase-on_leave = λ t pid. (on_player_leave-SameTable t pid).same_phase;
  phase-after_removed = λ t i. (after_player_removed-SameTable t i).same_phase;
  ids-on_leave = λ t pid. (on_player_leave-SameTable t pid).same_ids;
  ids-after_removed = λ t i. (after_player_removed-SameTable t i).same_ids;
  left-on_leave = λ t pid. ap ids (on_player_leave-SameTable t pid).same_left;
  left-after_removed = λ t i. ap ids (after_player_removed-SameTable t i).same_left;
}
