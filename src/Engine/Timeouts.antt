-- ===== src/Engine/Timeouts.antt =====
-- turnclock.go: what an expired turn does. The timer's goroutine takes the lock twice: once to
-- resolve the expiry, and once to carry the resolution out.
use terminal_card.Base.{
  ℕ, ◌+◌, ◌&&◌, ◌||◌, not, Option, none, some, ◌==◌, leb, if◌then◌else◌, length,
}
use terminal_card.Base.Int.{ℤ}
use terminal_card.Base.GoMap.{get_or, put}
use terminal_card.Game.{Player, State, EventType, EndReason, Rules, is_playing}
use terminal_card.Engine.{
  Engine, Error, current_player, broadcast, arm_turn_timer, finish_game, max_missed_turns,
}
use terminal_card.Engine.Actions.{submit_timed_out_action}
use terminal_card.Engine.Leaving.{remove_player}

-- resolveTurnTimeout's answer: nobody, a seat to take, or a move to play for a seat.
pub data Resolution (A : Type 0) : Type 0 where
  nobody : Resolution A
  take_seat : ℕ → Resolution A
  play : ℕ → A → Resolution A

module _ {X A E : Type 0} (rules : Rules X A E) (now : ℤ) where
  unfoldable pub safe_action : State X → Option A
  safe_action s = elim rules.timeout_action [ none ↦ none | some h ↦ h s ]

  -- The miss is charged, and the seat taken, or a move played where there is a safe one.
  unfoldable pub charge_miss : Player → Engine X → Engine X × Resolution A
  charge_miss p e =
      let misses = get_or 0 p.id e.missed_turns + 1 in
      let charged = record e { missed_turns = put p.id misses e.missed_turns } in
      if leb max_missed_turns misses
      then (charged, take_seat p.id)
      else elim (safe_action e.state) [
        | none ↦ (
          record e { missed_turns = put p.id max_missed_turns charged.missed_turns },
          take_seat p.id,
        )
        | some action ↦
            (broadcast EventType.turn_timed_out p.id EndReason.unknown charged, play p.id action)
      ]

  unfoldable pub resolve_turn_timeout : ℕ → Engine X → Engine X × Resolution A
  resolve_turn_timeout seq e =
      if not (seq == e.turn_seq) || not (is_playing e.state.phase) || (length e.state.players == 0)
      then (e, nobody)
      else elim (current_player e.state) [ none ↦ (e, nobody) | some p ↦ charge_miss p e ]

  unfoldable pub remove_if_still_idle : ℕ → ℕ → Engine X → Engine X
  remove_if_still_idle seq pid e =
      if seq == e.turn_seq
      then remove_player rules now pid (broadcast EventType.player_idle pid EndReason.unknown e)
      else e

  -- A move that the rules refuse leaves the turn to a fresh clock.
  unfoldable pub after_auto_play : Engine X × Option (Error E) → Engine X
  after_auto_play (e, none) = e
  after_auto_play (e, some Error.stale_turn) = e
  after_auto_play (e, some _) = arm_turn_timer rules now e

  -- onTurnTimeout once the resolution is known. An empty id is nobody's.
  unfoldable pub carry_out : ℕ → Resolution A → Engine X → Engine X
  carry_out seq nobody e = e
  carry_out seq (take_seat pid) e = if pid == 0 then e else remove_if_still_idle seq pid e
  carry_out seq (play pid action) e =
      if pid == 0 then e else after_auto_play (submit_timed_out_action rules now pid action seq e)

  -- recoverRulesPanic, where a panic was caught. It runs in a lock hold of its own, after the one in which
  -- a hook panicked has been left.
  unfoldable pub recover_rules_panic : Engine X → Engine X
  recover_rules_panic e =
      if is_playing e.state.phase && not e.is_closed
      then finish_game rules now none EndReason.rules_error e
      else e

  -- The lock hold of an expiry in which TimeoutAction panics, after the miss is charged. TimeoutAction is
  -- called only for a player whose misses stay below the limit.
  unfoldable pub panic_in_timeout : ℕ → Engine X → Engine X
  panic_in_timeout seq e =
      if not (seq == e.turn_seq) || not (is_playing e.state.phase) || (length e.state.players == 0)
      then e
      else elim (current_player e.state) [
        | none ↦ e
        | some p ↦
            let misses = get_or 0 p.id e.missed_turns + 1 in
            if leb max_missed_turns misses
            then e
            else record e { missed_turns = put p.id misses e.missed_turns }
      ]
