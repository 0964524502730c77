-- ===== src/Hearts/Laws.antt =====
-- Hearts leaves the seats and the phase to the engine.
use terminal_card.Base.{
  inl, inr, ℕ, ◌+◌, ◌≡◌, refl, Bool, true, false, not, Option, none, some, List, ◌==◌, ltb, length,
  get_elem?, Bool-cases, Option-cases,
}
use terminal_card.Base.Int.{ℤ, pos, negsuc}
use terminal_card.Base.GoMap.{GoMap}
use terminal_card.Deck.{Card, Pile, Shuffler}
use terminal_card.Game.{Player}
use terminal_card.Game.Scores.{any_score_at_least}
use terminal_card.Engine.Laws.{ids, KeepsTable}
use terminal_card.Engine.Leaving.{on_leave, after_removed}
use terminal_card.Hearts.{State, Table, PassDirection, Action, player_count, cards_per_hand}
use terminal_card.Hearts.Tricks.{next_unpassed_seat, score_hand}
use terminal_card.Hearts.Rounds.{turn_to, open_hand, begin_dealt, begin_hand, on_game_start}
use terminal_card.Hearts.Moves.{
  apply_pass, apply_play, apply_by, is_card_action, apply_at, apply_in, apply_action, pass_on,
  finish_passes, after_pass, finish_hand, win_trick, after_play, after_in, after_action, leave_in,
  hearts_rules, length_nil,
}

phase-open_hand :
    (dealer : ℤ) (x : State) (d : PassDirection) (t : Table)
    → (open_hand dealer x d t).phase ≡ t.phase
unfolding open_hand turn_to
phase-open_hand dealer x PassDirection.pass_none t = refl
phase-open_hand dealer x PassDirection.pass_left t = refl
phase-open_hand dealer x PassDirection.pass_right t = refl
phase-open_hand dealer x PassDirection.pass_across t = refl

phase-begin_dealt :
    (dealer : ℤ) (x : State) (t : Table) (r : Pile × List Player × Bool)
    → (begin_dealt dealer x t r).0.phase ≡ t.phase
unfolding begin_dealt
phase-begin_dealt dealer x t (pile, ps, false) = refl
phase-begin_dealt dealer x t (pile, ps, true) = phase-open_hand dealer x _ _

phase-begin_hand :
    (sh : Shuffler) (t : Table) (x : State) (dealer : ℤ)
    → (begin_hand sh t x dealer).0.phase ≡ t.phase
unfolding begin_hand
phase-begin_hand sh t x dealer = phase-begin_dealt dealer _ t _

phase-on_game_start : (sh : Shuffler) (t : Table) → (on_game_start sh t).0.phase ≡ t.phase
unfolding on_game_start
phase-on_game_start sh t = elim (Bool-cases (not (length t.players == player_count))) [
  | inl wrong ↦ rw (wrong, on_game_start) refl
  | inr right ↦ rw (right, on_game_start) (phase-begin_hand sh _ _ t.current_turn)
]

phase-apply_pass :
    (t : Table) (x : State) (i : ℕ) (p : Player) (cards : List Card)
    (pending : Option (GoMap (List Card))) (passed : Option (GoMap Bool))
    → (apply_pass t x i p cards pending passed).0.phase ≡ t.phase
unfolding apply_pass
phase-apply_pass t x i p cards none passed = refl
phase-apply_pass t x i p cards (some m) none = refl
phase-apply_pass t x i p cards (some m) (some k) = refl

phase-apply_by :
    (t : Table) (x : State) (i : ℕ) (p : Player) (a : Action)
    → (apply_by t x i p a).0.phase ≡ t.phase
unfolding apply_by apply_play
phase-apply_by t x i p (Action.pass_cards cards) =
    phase-apply_pass t x i p cards x.pending_passes x.passed
phase-apply_by t x i p (Action.play_card card) = refl
phase-apply_by t x i p Action.next_hand = refl
phase-apply_by t x i p Action.foreign = refl

phase-apply_at : (t : Table) (x : State) (i : ℤ) (a : Action) → (apply_at t x i a).0.phase ≡ t.phase
unfolding apply_at
phase-apply_at t x (negsuc i) a = elim (Bool-cases (is_card_action a)) [
  | inl card ↦ rw (card, apply_at) refl
  | inr other ↦ rw (other, apply_at) refl
]
phase-apply_at t x (pos i) a = elim (Option-cases (get_elem? t.players i)) [
  | inl nobody ↦ elim (Bool-cases (is_card_action a)) [
    | inl card ↦ rw (nobody, apply_at, card) refl
    | inr other ↦ rw (nobody, apply_at, other) refl
  ]
  | inr (p, sits) ↦ rw (sits, apply_at) (phase-apply_by t x i p a)
]

phase-apply_in : (t : Table) (o : Option State) (a : Action) → (apply_in t o a).0.phase ≡ t.phase
unfolding apply_in
phase-apply_in t none a = refl
phase-apply_in t (some x) a = phase-apply_at t x t.current_turn a

phase-pass_on : (t : Table) (o : Option ℤ) → (pass_on t o).0.phase ≡ t.phase
unfolding pass_on
phase-pass_on t none = refl
phase-pass_on t (some next) = refl

phase-after_pass : (t : Table) (x : State) → (after_pass t x).0.phase ≡ t.phase
unfolding after_pass finish_passes turn_to
phase-after_pass t x = elim (Bool-cases (ltb (length_nil x.passed) (length t.players))) [
  | inl more ↦
      rw (more, after_pass) (phase-pass_on t (next_unpassed_seat t.players x t.current_turn))
  | inr done ↦ rw (done, after_pass) refl
]

phase-finish_hand : (t : Table) (x : State) → (finish_hand t x).phase ≡ t.phase
unfolding finish_hand turn_to
phase-finish_hand t x =
    let y = score_hand x t.players in
    elim (Bool-cases (any_score_at_least y.cumulative_scores y.target_score)) [
      | inl over ↦ rw (over, finish_hand) refl
      | inr next ↦ rw (next, finish_hand) refl
    ]

phase-win_trick :
    (t : Table) (x : State) (i : ℤ) (o : Option Player) → (win_trick t x i o).0.phase ≡ t.phase
unfolding win_trick turn_to
phase-win_trick t x i none = refl
phase-win_trick t x i (some p) = elim (Bool-cases (ltb (x.tricks_played + 1) cards_per_hand)) [
  | inl more ↦ rw (more, win_trick) refl
  | inr done ↦ rw (done, win_trick) (phase-finish_hand t _)
]

phase-after_play : (t : Table) (x : State) → (after_play t x).0.phase ≡ t.phase
unfolding after_play
phase-after_play t x = elim (Bool-cases (ltb (length x.trick_cards) (length t.players))) [
  | inl more ↦ rw (more, after_play) refl
  | inr full ↦ rw (full, after_play) (phase-win_trick t x _ _)
]

phase-after_in :
    (sh : Shuffler) (t : Table) (o : Option State) (a : Action)
    → (after_in sh t o a).0.phase ≡ t.phase
unfolding after_in
phase-after_in sh t none a = refl
phase-after_in sh t (some x) (Action.pass_cards cards) = phase-after_pass t x
phase-after_in sh t (some x) (Action.play_card card) = phase-after_play t x
phase-after_in sh t (some x) Action.next_hand = phase-begin_hand sh t x t.current_turn
phase-after_in sh t (some x) Action.foreign = refl

phase-leave_in : (t : Table) (o : Option State) → (leave_in t o).phase ≡ t.phase
unfolding leave_in
phase-leave_in t none = refl
phase-leave_in t (some x) = refl

players-leave_in :
    (t : Table) (o : Option State)
    → (ids (leave_in t o).players ≡ ids t.players)
      × (ids (leave_in t o).left_players ≡ ids t.left_players)
unfolding leave_in
players-leave_in t none = (refl, refl)
players-leave_in t (some x) = (refl, refl)

-- The hooks of Hearts keep what the engine's theorems ask of a game.
pub hearts_rules-KeepsTable : (sh : Shuffler) → KeepsTable (hearts_rules sh)
unfolding on_leave after_removed apply_action after_action
hearts_rules-KeepsTable sh = record {
  phase-on_game_start = λ t. phase-on_game_start sh t;
  phase-apply_action = λ t a. phase-apply_in t t.extra a;
  phase-after_action = λ t a. phase-after_in sh t t.extra a;
  phase-on_leave = λ t pid. phase-leave_in t t.extra;
  phase-after_removed = λ t i. refl;
  ids-on_leave = λ t pid. (players-leave_in t t.extra).0;
  ids-after_removed = λ t i. refl;
  left-on_leave = λ t pid. (players-leave_in t t.extra).1;
  left-after_removed = λ t i. refl;
}
