-- ===== src/Engine/Ending.antt =====
-- The end of a game is announced once, and the turn clock runs only while the game is in play.
use terminal_card.Base.{
  ℕ, ◌+◌, ◌≡◌, refl, ◌∙◌, ◌⊎◌, inl, inr, Bool, true, false, Option, none, some, List, [], ◌∷◌,
  arith, Bool-cases, if◌then◌else◌,
}
use terminal_card.Base.Int.{ℤ}
use terminal_card.Base.GoMap.{delete}
use terminal_card.Game.{Player, State, Phase, Event, EventType, EndReason, Rules, is_playing}
use terminal_card.Engine.{
  Engine, clamp_state, broadcast, stop_turn_timer, arm_turn_timer, next_turn, apply_next_turn,
  finish_game,
}
use terminal_card.Engine.Actions.{
  conclude_action, after_settle, after_apply, perform_action, accept_action, submit_action_locked,
  submit_cases,
}
use terminal_card.Engine.Leaving.{
  move_to_left, last_seat, seats_left, settle_table, vacate, settle_vacated, remove_player,
  remove_cases, remove_seat_found, on_leave,
}
use terminal_card.Engine.Laws.{KeepsTable, seat_found}

abbrev end_count : EventType → ℕ
end_count EventType.game_ended = 1
end_count _ = 0

-- How often the end of the game was announced.
unfoldable pub ended : List Event → ℕ
ended [] = 0
ended (v ∷ vs) = end_count v.type + ended vs

abbrev pub ended_flag : Phase → ℕ
ended_flag Phase.finished = 1
ended_flag _ = 0

-- The end is announced once when the game is finished, and not before. An armed timer carries the
-- present turn sequence, on an open table whose game is in play.
pub record IsOrderly {X : Type 0} (e : Engine X) : Type 0 where
  pub ended_once : ended e.sent ≡ ended_flag e.state.phase
  pub clock :
      (e.turn_timer ≡ none)
      ⊎ ((e.turn_timer ≡ some e.turn_seq) × (e.state.phase ≡ Phase.playing) × (e.is_closed ≡ false))

module _ {X : Type 0} where
  phase-next_turn : (advance : Bool) (s : State X) → (next_turn advance s).phase ≡ s.phase
  unfolding next_turn
  phase-next_turn advance s = ground arith

module _ {X A E : Type 0} (rules : Rules X A E) (now : ℤ) where
  quiet :
      (e : Engine X) (t : EventType) (pid : ℕ)
      → ended e.sent ≡ 0
      → end_count t ≡ 0
      → ended (broadcast t pid EndReason.unknown e).sent ≡ 0
  unfolding broadcast ended
  quiet e t pid h q = omega arith

  state-broadcast :
      (e : Engine X) (t : EventType) (pid : ℕ)
      → (broadcast t pid EndReason.unknown e).state ≡ e.state
  unfolding broadcast
  state-broadcast e t pid = refl

  pub arm_turn_timer-IsOrderly :
      (e : Engine X)
      → ended e.sent ≡ ended_flag e.state.phase
      → IsOrderly (arm_turn_timer rules now e)
  unfolding arm_turn_timer
  arm_turn_timer-IsOrderly e h = ground arith

  pub apply_next_turn-IsOrderly :
      (advance : Bool) (e : Engine X)
      → ended e.sent ≡ ended_flag e.state.phase
      → IsOrderly (apply_next_turn rules now advance e)
  unfolding apply_next_turn clamp_state
  apply_next_turn-IsOrderly advance e h =
      arm_turn_timer-IsOrderly (record e { state = clamp_state (next_turn advance e.state) })
        (rw (phase-next_turn advance e.state) h)

  pub advanced-IsOrderly :
      (advance : Bool) (e : Engine X)
      → ended e.sent ≡ ended_flag e.state.phase
      → IsOrderly (
          broadcast EventType.turn_advanced 0 EndReason.unknown
            (apply_next_turn rules now advance e))
  unfolding broadcast ended
  advanced-IsOrderly advance e h = ground (arith, apply_next_turn-IsOrderly advance e h)

  pub finish_game-IsOrderly :
      (fallback : Option Player) (reason : EndReason) (e : Engine X)
      → ended e.sent ≡ 0
      → IsOrderly (finish_game rules now fallback reason e)
  unfolding finish_game ended
  finish_game-IsOrderly fallback reason e h = ground arith

  conclude_action-IsOrderly :
      (pid : ℕ) (current : Option Player) (e : Engine X)
      → ended e.sent ≡ 0
      → e.state.phase ≡ Phase.playing
      → IsOrderly (conclude_action rules now pid current e)
  unfolding conclude_action
  conclude_action-IsOrderly pid current e h live =
      let e' = broadcast EventType.action_applied pid EndReason.unknown e in
      elim (Bool-cases (rules.check_win_condition e'.state)) [
        | inl won ↦
            rw (won, conclude_action)
              (finish_game-IsOrderly current EndReason.win e'
                (quiet e EventType.action_applied pid h refl))
        | inr not_won ↦
            rw (not_won, conclude_action)
              (advanced-IsOrderly true e' (
                ground (
                  arith,
                  quiet e EventType.action_applied pid h refl,
                  state-broadcast e EventType.action_applied pid,
                )))
      ]

  after_settle-IsOrderly :
      (p : Player) (r : State X × Option E) (e : Engine X)
      → ended e.sent ≡ 0
      → r.0.phase ≡ Phase.playing
      → IsOrderly (after_settle rules now p r e).0
  unfolding after_settle
  after_settle-IsOrderly p (s, some err) e h live =
      finish_game-IsOrderly (some p) EndReason.rules_error (record e { state = s }) h
  after_settle-IsOrderly p (s, none) e h live =
      conclude_action-IsOrderly p.id (some p) (record e { state = s }) h live

  module _ (laws : KeepsTable rules) where
    after_apply-IsOrderly :
        (p : Player) (action : A) (r : State X × Option E) (e : Engine X)
        → ended e.sent ≡ 0
        → r.0.phase ≡ Phase.playing
        → IsOrderly (after_apply rules now p action r e).0
    unfolding after_apply
    after_apply-IsOrderly p action (s, some err) e h live =
        finish_game-IsOrderly (some p) EndReason.rules_error (record e { state = s }) h
    after_apply-IsOrderly p action (s, none) e h live =
        after_settle-IsOrderly p (rules.after_action s action) e h
          (laws.phase-after_action s action ∙ live)

    accept_action-IsOrderly :
        (p : Player) (action : A) (present : Bool) (e : Engine X)
        → ended e.sent ≡ 0
        → e.state.phase ≡ Phase.playing
        → IsOrderly (accept_action rules now p action present e).0
    unfolding accept_action perform_action
    accept_action-IsOrderly p action present e h live =
        let e' : Engine X =
          if present then record e { missed_turns = delete p.id e.missed_turns } else e in
        after_apply-IsOrderly p action (rules.apply_action e'.state action) e' (ground arith)
          (laws.phase-apply_action e'.state action ∙ (ground arith))

    -- Under rules that keep the table, submitting a move keeps the announcement of the end and
    -- the timer in order, whether the move is accepted, refused or fails in the rules.
    pub submit_action_locked-IsOrderly :
        (pid : ℕ) (action : A) (present : Bool) (e : Engine X)
        → IsOrderly e
        → IsOrderly (submit_action_locked rules now pid action present e).0
    submit_action_locked-IsOrderly pid action present e h =
        submit_cases rules now (λ r. IsOrderly r.0) pid action present e (λ err. h)
          λ p _ _ _ live _. accept_action-IsOrderly p action present e (ground (arith, h)) live

    last_seat-IsOrderly :
        (next : Option ℤ) (p : Player) (e : Engine X)
        → ended e.sent ≡ 0
        → e.state.phase ≡ Phase.playing
        → IsOrderly (last_seat rules now next p e)
    unfolding last_seat broadcast stop_turn_timer ended
    last_seat-IsOrderly none p e h live = ground arith
    last_seat-IsOrderly (some t) p e h live = advanced-IsOrderly false e (ground arith)

    seats_left-IsOrderly :
        (ps : List Player) (p : Player) (e : Engine X)
        → ended e.sent ≡ 0
        → e.state.phase ≡ Phase.playing
        → IsOrderly (seats_left rules now ps p e)
    unfolding seats_left
    seats_left-IsOrderly [] p e h live = last_seat-IsOrderly e.state.override_next_turn p e h live
    seats_left-IsOrderly (_ ∷ _) p e h live = advanced-IsOrderly false e (ground arith)

    settle_table-IsOrderly :
        (ps : List Player) (e : Engine X)
        → ended e.sent ≡ 0
        → e.state.phase ≡ Phase.playing
        → IsOrderly (settle_table rules now ps e)
    unfolding settle_table broadcast stop_turn_timer ended
    settle_table-IsOrderly [] e h live = ground arith
    settle_table-IsOrderly (p ∷ ps) e h live =
        elim (Bool-cases (rules.check_win_condition e.state)) [
          | inl won ↦ rw (won, settle_table) (finish_game-IsOrderly none EndReason.win e h)
          | inr not_won ↦ rw (not_won, settle_table) (seats_left-IsOrderly ps p e h live)
        ]

    vacate-phase :
        (pid : ℕ) (p : Player) (i : ℕ) (e : Engine X)
        → (vacate rules now pid p i e).state.phase ≡ e.state.phase
    unfolding vacate broadcast move_to_left clamp_state
    vacate-phase pid p i e = laws.phase-after_removed (move_to_left e.state i p) i

    vacate-IsOrderly :
        (pid : ℕ) (p : Player) (i : ℕ) (e : Engine X)
        → IsOrderly e
        → IsOrderly (vacate rules now pid p i e)
    unfolding vacate broadcast ended
    vacate-IsOrderly pid p i e h = ground (arith, vacate-phase pid p i e)

    settle_vacated-IsOrderly : (e : Engine X) → IsOrderly e → IsOrderly (settle_vacated rules now e)
    unfolding settle_vacated
    settle_vacated-IsOrderly e h = elim (Bool-cases (is_playing e.state.phase)) [
      | inl live ↦
          rw (live, settle_vacated)
            (settle_table-IsOrderly e.state.players e (ground (arith, h)) (ground arith))
      | inr idle ↦ rw (idle, settle_vacated) h
    ]

    -- Under rules that keep the table, a removal keeps the announcement of the end and the timer
    -- in order.
    pub remove_player-IsOrderly :
        (pid : ℕ) (e : Engine X) → IsOrderly e → IsOrderly (remove_player rules now pid e)
    remove_player-IsOrderly pid e h = remove_cases rules now IsOrderly pid e h λ i found _.
        let (p, there, _) = seat_found rules laws e.state pid i found in
        let e' : Engine X = record e { state = on_leave rules e.state pid } in
        simp (remove_seat_found rules now pid i e' p there) (
          settle_vacated-IsOrderly (vacate rules now pid p i e')
            (vacate-IsOrderly pid p i e' (ground (arith, h, laws.phase-on_leave e.state pid))))
