-- ===== src/Engine/Cursor.antt =====
-- The cursor: whose turn it is after the engine's operations, whatever the rules do.
use terminal_card.Base.{
  ℕ, zero, suc, ◌+◌, ◌%◌, ◌-◌, ◌<◌, ◌≡◌, refl, ap, ◌⊎◌, inl, inr, Bool, true, false, Option, none,
  some, List, [], ◌∷◌, arith, length, get_elem?-some, Bool-cases, if◌then◌else◌,
}
use native.Mathlib.Nat.{mod-lt, mod-eq_of_lt}
use terminal_card.Base.Int.{ℤ, pos, negsuc, ◌+ℤ◌, rem}
use terminal_card.Base.GoMap.{delete}
use terminal_card.Game.{Player, State, Phase, EndReason, Rules, seat, is_playing}
use terminal_card.Engine.{
  Engine, clamp_turn, clamp_state, current_player, broadcast, stop_turn_timer, arm_turn_timer,
  next_turn, apply_next_turn, finish_game,
}
use terminal_card.Engine.Actions.{
  conclude_action, after_settle, after_apply, perform_action, accept_action, submit_action_locked,
  submit_cases,
}
use terminal_card.Engine.Leaving.{
  last_seat, seats_left, settle_table, vacate, remove_player, on_leave, settle_vacated,
  remove_cases, remove_seat_found,
}
use terminal_card.Engine.Laws.{KeepsTable, seat_found}

-- At a table with a seat, the clamped cursor is a seat's index, from any int at all.
pub clamp_turn_bounds : (t : ℤ) (n : ℕ) → (i : ℕ) × (clamp_turn t (suc n) ≡ pos i) × (i < suc n)
unfolding clamp_turn
clamp_turn_bounds (pos t) n = ((t % suc n + suc n) % suc n, ground arith, omega arith)
clamp_turn_bounds (negsuc t) n =
    ((suc n - suc t % suc n) % suc n, grind (arith, mod-lt), grind (arith, mod-lt))

rem_wraps : (i n : ℕ) → i < suc n → rem (rem (pos i) (suc n) +ℤ pos (suc n)) (suc n) ≡ pos i
rem_wraps i n h =
    rw (mod-eq_of_lt {m = suc n} h)
      (let wraps : (i + suc n) % suc n ≡ i = grind (arith, mod-eq_of_lt) in ground arith)

-- A cursor that is in the table stays where it is.
pub clamp_turn-of_lt : (i n : ℕ) → i < n → clamp_turn (pos i) n ≡ pos i
unfolding clamp_turn
clamp_turn-of_lt i zero h = elim h [ ]
clamp_turn-of_lt i (suc n) h = rem_wraps i n h

-- While the game is in play the cursor names a seat, if a seat is left.
abbrev pub HasTurn : {X : Type 0} → State X → Type 0
HasTurn s =
    (is_playing s.phase ≡ false) ⊎ ((s.players ≡ []) ⊎ ((p : Player) × (current_player s ≡ some p)))

module _ {X : Type 0} where
  clamp_state-HasTurn : (s : State X) → HasTurn (clamp_state s)
  unfolding clamp_state current_player
  clamp_state-HasTurn s = inr (seated s.players s.current_turn)
    where
      seated :
          (ps : List Player) (t : ℤ)
          → (ps ≡ []) ⊎ ((p : Player) × (seat (clamp_turn t (length ps)) ps ≡ some p))
      seated [] t = inl refl
      seated (p ∷ ps) t =
          let (i, e, below) = clamp_turn_bounds t (length ps) in
          let (q, found) = get_elem?-some (p ∷ ps) i below in inr (q, rw e found)

module _ {X A E : Type 0} (rules : Rules X A E) (now : ℤ) where
  pub state-arm_turn_timer : (e : Engine X) → (arm_turn_timer rules now e).state ≡ e.state
  unfolding arm_turn_timer
  state-arm_turn_timer e = ground arith

  pub apply_next_turn-HasTurn :
      (advance : Bool) (e : Engine X) → HasTurn (apply_next_turn rules now advance e).state
  unfolding apply_next_turn
  apply_next_turn-HasTurn advance e =
      rw (state-arm_turn_timer (record e { state = clamp_state (next_turn advance e.state) }))
        (clamp_state-HasTurn (next_turn advance e.state))

  pub phase-finish_game :
      (fallback : Option Player) (reason : EndReason) (e : Engine X)
      → (finish_game rules now fallback reason e).state.phase ≡ Phase.finished
  unfolding finish_game
  phase-finish_game fallback reason e = ground arith

  -- The two ways in which an operation ends.
  finish_game-HasTurn :
      (fallback : Option Player) (reason : EndReason) (e : Engine X)
      → HasTurn (finish_game rules now fallback reason e).state
  finish_game-HasTurn fallback reason e = inl (ap is_playing (phase-finish_game fallback reason e))

  conclude_action-HasTurn :
      (pid : ℕ) (current : Option Player) (e : Engine X)
      → HasTurn (conclude_action rules now pid current e).state
  unfolding conclude_action broadcast
  conclude_action-HasTurn pid current e = elim (Bool-cases (rules.check_win_condition e.state)) [
    | inl won ↦ rw won (finish_game-HasTurn current EndReason.win _)
    | inr not_won ↦ rw not_won (apply_next_turn-HasTurn true _)
  ]

  after_settle-HasTurn :
      (p : Player) (r : State X × Option E) (e : Engine X)
      → HasTurn (after_settle rules now p r e).0.state
  unfolding after_settle
  after_settle-HasTurn p (s, some err) e = finish_game-HasTurn (some p) EndReason.rules_error _
  after_settle-HasTurn p (s, none) e = conclude_action-HasTurn p.id (some p) _

  after_apply-HasTurn :
      (p : Player) (action : A) (r : State X × Option E) (e : Engine X)
      → HasTurn (after_apply rules now p action r e).0.state
  unfolding after_apply
  after_apply-HasTurn p action (s, some err) e =
      finish_game-HasTurn (some p) EndReason.rules_error _
  after_apply-HasTurn p action (s, none) e = after_settle-HasTurn p (rules.after_action s action) e

  accept_action-HasTurn :
      (p : Player) (action : A) (present : Bool) (e : Engine X)
      → HasTurn (accept_action rules now p action present e).0.state
  unfolding accept_action perform_action
  accept_action-HasTurn p action present e =
      let e' : Engine X =
        if present then record e { missed_turns = delete p.id e.missed_turns } else e in
      after_apply-HasTurn p action (rules.apply_action e'.state action) e'

  -- If the cursor names a seat while the game is in play and a seat is left, it does so after a
  -- submitted move.
  pub submit_action_locked-HasTurn :
      (pid : ℕ) (action : A) (present : Bool) (e : Engine X)
      → HasTurn e.state
      → HasTurn (submit_action_locked rules now pid action present e).0.state
  submit_action_locked-HasTurn pid action present e h =
      submit_cases rules now (λ r. HasTurn r.0.state) pid action present e (λ err. h)
        λ p _ _ _ _ _. accept_action-HasTurn p action present e

  last_seat-HasTurn :
      (next : Option ℤ) (p : Player) (e : Engine X) → HasTurn (last_seat rules now next p e).state
  unfolding last_seat broadcast stop_turn_timer
  last_seat-HasTurn none p e = inl refl
  last_seat-HasTurn (some t) p e = apply_next_turn-HasTurn false e

  seats_left-HasTurn :
      (ps : List Player) (p : Player) (e : Engine X) → HasTurn (seats_left rules now ps p e).state
  unfolding seats_left broadcast
  seats_left-HasTurn [] p e = last_seat-HasTurn e.state.override_next_turn p e
  seats_left-HasTurn (_ ∷ _) p e = apply_next_turn-HasTurn false e

  settle_table-HasTurn :
      (ps : List Player) (e : Engine X) → HasTurn (settle_table rules now ps e).state
  unfolding settle_table broadcast stop_turn_timer
  settle_table-HasTurn [] e = inl refl
  settle_table-HasTurn (p ∷ ps) e = elim (Bool-cases (rules.check_win_condition e.state)) [
    | inl won ↦ rw (won, settle_table) (finish_game-HasTurn none EndReason.win e)
    | inr not_won ↦ rw (not_won, settle_table) (seats_left-HasTurn ps p e)
  ]

  vacated-HasTurn :
      (pid : ℕ) (p : Player) (i : ℕ) (e : Engine X)
      → HasTurn (settle_vacated rules now (vacate rules now pid p i e)).state
  unfolding settle_vacated
  vacated-HasTurn pid p i e =
      elim (Bool-cases (is_playing (vacate rules now pid p i e).state.phase)) [
        | inl live ↦
            rw (live, settle_vacated)
              (settle_table-HasTurn (vacate rules now pid p i e).state.players
                (vacate rules now pid p i e))
        | inr idle ↦ rw (idle, settle_vacated) (inl idle)
      ]

  -- Under rules that keep the table, if the cursor names a seat while the game is in play and a
  -- seat is left, it does so after a removal.
  pub remove_player-HasTurn :
      KeepsTable rules
      → (pid : ℕ) (e : Engine X) → HasTurn e.state
      → HasTurn (remove_player rules now pid e).state
  remove_player-HasTurn laws pid e h =
      remove_cases rules now (λ d. HasTurn d.state) pid e h
        λ i found _.
          let (p, there, _) = seat_found rules laws e.state pid i found in
          simp
            (remove_seat_found rules now pid i (record e { state = on_leave rules e.state pid }) p
              there)
            (vacated-HasTurn pid p i _)
