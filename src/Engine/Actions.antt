-- ===== src/Engine/Actions.antt =====
-- engine.go's submitActionLocked and its callers: a move is checked, applied and settled.
use terminal_card.Base.{
  arith, inl, inr, Bool-cases, Option-cases, ℕ, ◌≡◌, Bool, true, false, not, Option, none, some,
  ◌==◌, if◌then◌else◌,
}
use terminal_card.Base.Int.{ℤ}
use terminal_card.Base.GoMap.{delete}
use terminal_card.Game.{Player, State, Phase, EventType, EndReason, Rules, is_playing}
use terminal_card.Engine.{Engine, Error, current_player, broadcast, apply_next_turn, finish_game}

module _ {X A E : Type 0} (rules : Rules X A E) (now : ℤ) where
  -- The tail of submitActionLocked, once the move is applied and settled.
  unfoldable pub conclude_action : ℕ → Option Player → Engine X → Engine X
  conclude_action pid current e =
      let e' = broadcast EventType.action_applied pid EndReason.unknown e in
      if rules.check_win_condition e'.state
      then finish_game rules now current EndReason.win e'
      else broadcast EventType.turn_advanced 0 EndReason.unknown (apply_next_turn rules now true e')

  -- What AfterAction made of the move.
  unfoldable pub after_settle : Player → State X × Option E → Engine X → Engine X × Option (Error E)
  after_settle p (s, some err) e = (
    finish_game rules now (some p) EndReason.rules_error (record e { state = s }),
    some (Error.after_failed err),
  )
  after_settle p (s, none) e = (conclude_action p.id (some p) (record e { state = s }), none)

  -- What ApplyAction made of it.
  unfoldable pub after_apply :
      Player → A → State X × Option E → Engine X → Engine X × Option (Error E)
  after_apply p action (s, some err) e = (
    finish_game rules now (some p) EndReason.rules_error (record e { state = s }),
    some (Error.apply_failed err),
  )
  after_apply p action (s, none) e = after_settle p (rules.after_action s action) e

  -- submitActionLocked from the point where the move is accepted.
  unfoldable pub perform_action : Player → A → Engine X → Engine X × Option (Error E)
  perform_action p action e = after_apply p action (rules.apply_action e.state action) e

  unfoldable pub accept_action : Player → A → Bool → Engine X → Engine X × Option (Error E)
  accept_action p action present e =
      perform_action p action
        (if present then record e { missed_turns = delete p.id e.missed_turns } else e)

  -- submitActionLocked.
  unfoldable pub submit_action_locked : ℕ → A → Bool → Engine X → Engine X × Option (Error E)
  submit_action_locked pid action present e =
      if e.is_closed
      then (e, some Error.closed)
      else if not (is_playing e.state.phase)
      then (e, some Error.not_playing)
      else elim (current_player e.state) [
        | none ↦ (e, some Error.not_your_turn)
        | some p ↦
            if not (p.id == pid)
            then (e, some Error.not_your_turn)
            else elim (rules.validate_action e.state action) [
              | some err ↦ (e, some (Error.refused err))
              | none ↦ accept_action p action present e
            ]
      ]

  unfoldable pub submit_action : ℕ → A → Engine X → Engine X × Option (Error E)
  submit_action pid action e = submit_action_locked pid action true e

  unfoldable pub submit_timed_out_action : ℕ → A → ℕ → Engine X → Engine X × Option (Error E)
  submit_timed_out_action pid action seq e =
      if seq == e.turn_seq
      then submit_action_locked pid action false e
      else (e, some Error.stale_turn)

  -- A submitted move is refused, with the engine as it was, or it is accepted for the seat on turn.
  pub submit_cases {ℓ} :
      (P : Engine X × Option (Error E) → Type ℓ) (pid : ℕ) (action : A) (present : Bool)
      (e : Engine X)
      → ((err : Error E) → P (e, some err))
      → ((p : Player)
          → current_player e.state ≡ some p
          → p.id ≡ pid
          → e.is_closed ≡ false
          → e.state.phase ≡ Phase.playing
          → rules.validate_action e.state action ≡ none
          → P (accept_action p action present e))
      → P (submit_action_locked pid action present e)
  unfolding submit_action_locked
  submit_cases P pid action present e no_move move = elim (Bool-cases e.is_closed) [
    | inl shut ↦ simp shut (no_move Error.closed)
    | inr still ↦ simp still (elim (Bool-cases (is_playing e.state.phase)) [
      | inr idle ↦ simp idle (no_move Error.not_playing)
      | inl live ↦ simp live (elim (Option-cases (current_player e.state)) [
        | inl nobody ↦ simp nobody (no_move Error.not_your_turn)
        | inr (p, on_turn) ↦ simp on_turn (elim (Bool-cases (p.id == pid)) [
          | inr other ↦ simp other (no_move Error.not_your_turn)
          | inl own ↦ simp own (elim (Option-cases (rules.validate_action e.state action)) [
            | inr (err, bad) ↦ simp bad (no_move (Error.refused err))
            | inl good ↦ simp good (move p on_turn (ground arith) still (ground arith) good)
          ])
        ])
      ])
    ])
  ]
