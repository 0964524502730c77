-- ===== src/Engine/Clock.antt =====
-- The turn sequence and the two halves of an expiry, between which other calls may run.
use terminal_card.Base.{
  ℕ, ◌+◌, ◌%◌, ◌<◌, ◌≡◌, ◌≢◌, refl, ◌∙◌, ◌⊎◌, inl, inr, Bool, true, Option, none, some, arith,
  if◌then◌else◌, ==_ne,
}
use terminal_card.Base.Int.{ℤ}
use terminal_card.Base.Words.{u64_mod}
use terminal_card.Base.GoMap.{delete}
use terminal_card.Game.{Player, State, EventType, EndReason, Rules}
use terminal_card.Engine.{Engine, broadcast, arm_turn_timer, apply_next_turn, finish_game}
use terminal_card.Engine.Actions.{
  conclude_action, after_settle, after_apply, perform_action, accept_action, submit_action_locked,
  submit_action, submit_timed_out_action, submit_cases,
}
use terminal_card.Engine.Timeouts.{
  Resolution, nobody, take_seat, play, remove_if_still_idle, after_auto_play, carry_out,
}

-- The sequence after the clock is stopped once.
abbrev pub bumped : {X : Type 0} → Engine X → ℕ
bumped e = (e.turn_seq + 1) % u64_mod

module _ {X A E : Type 0} (rules : Rules X A E) (now : ℤ) where
  seq-apply_next_turn :
      (advance : Bool) (e : Engine X) → (apply_next_turn rules now advance e).turn_seq ≡ bumped e
  unfolding apply_next_turn arm_turn_timer
  seq-apply_next_turn advance e = ground arith

  seq-finish_game :
      (fallback : Option Player) (reason : EndReason) (e : Engine X)
      → (finish_game rules now fallback reason e).turn_seq ≡ bumped e
  unfolding finish_game
  seq-finish_game fallback reason e = refl

  seq-conclude_action :
      (pid : ℕ) (current : Option Player) (e : Engine X)
      → (conclude_action rules now pid current e).turn_seq ≡ bumped e
  unfolding conclude_action broadcast
  seq-conclude_action pid current e =
      let e' = broadcast EventType.action_applied pid EndReason.unknown e in
      ground (arith, seq-apply_next_turn true e', seq-finish_game current EndReason.win e')

  seq-after_settle :
      (p : Player) (r : State X × Option E) (e : Engine X)
      → (after_settle rules now p r e).0.turn_seq ≡ bumped e
  unfolding after_settle
  seq-after_settle p (s, some err) e = seq-finish_game (some p) EndReason.rules_error _
  seq-after_settle p (s, none) e = seq-conclude_action p.id (some p) _

  seq-after_apply :
      (p : Player) (action : A) (r : State X × Option E) (e : Engine X)
      → (after_apply rules now p action r e).0.turn_seq ≡ bumped e
  unfolding after_apply
  seq-after_apply p action (s, some err) e = seq-finish_game (some p) EndReason.rules_error _
  seq-after_apply p action (s, none) e = seq-after_settle p (rules.after_action s action) _

  seq-accept_action :
      (p : Player) (action : A) (present : Bool) (e : Engine X)
      → (accept_action rules now p action present e).0.turn_seq ≡ bumped e
  unfolding accept_action perform_action
  seq-accept_action p action present e =
      let e' : Engine X =
        if present then record e { missed_turns = delete p.id e.missed_turns } else e in
      seq-after_apply p action (rules.apply_action e'.state action) e' ∙ (ground arith)

  -- Submitting a move changes nothing, or moves the turn sequence on by one, modulo 2 ^ 64.
  pub submit_action_locked_seq :
      (pid : ℕ) (action : A) (present : Bool) (e : Engine X)
      → ((submit_action_locked rules now pid action present e).0 ≡ e)
        ⊎ ((submit_action_locked rules now pid action present e).0.turn_seq ≡ bumped e)
  submit_action_locked_seq pid action present e =
      submit_cases rules now (λ r. (r.0 ≡ e) ⊎ (r.0.turn_seq ≡ bumped e)) pid action present e
        (λ err. inl refl) λ p _ _ _ _ _. inr (seq-accept_action p action present e)

  -- What was resolved for an older sequence is never carried out.
  pub carry_out_stale :
      (seq : ℕ) (r : Resolution A) (e : Engine X)
      → seq ≢ e.turn_seq
      → carry_out rules now seq r e ≡ e
  unfolding carry_out remove_if_still_idle after_auto_play submit_timed_out_action
  carry_out_stale seq nobody e h = refl
  carry_out_stale seq (take_seat pid) e h = ground (arith, ==_ne seq e.turn_seq h)
  carry_out_stale seq (play pid action) e h = ground (arith, ==_ne seq e.turn_seq h)

  bumped_ne : (e : Engine X) → e.turn_seq < u64_mod → e.turn_seq ≢ bumped e
  bumped_ne e h = omega arith

  -- While the turn sequence is below the modulus of uint64, a player who submits a move between
  -- the two halves of an expiry is neither removed nor played for: the move was refused and
  -- changed nothing, or the resolution changes nothing.
  pub carry_out-submit_action :
      (r : Resolution A) (pid : ℕ) (action : A) (e : Engine X)
      → e.turn_seq < u64_mod
      → let after = (submit_action rules now pid action e).0 in
        (after ≡ e) ⊎ (carry_out rules now e.turn_seq r after ≡ after)
  unfolding submit_action
  carry_out-submit_action r pid action e h = elim (submit_action_locked_seq pid action true e) [
    | inl same ↦ inl same
    | inr moved ↦ inr (
        carry_out_stale e.turn_seq r (submit_action_locked rules now pid action true e).0
          (λ q. bumped_ne e h (q ∙ moved)))
  ]
