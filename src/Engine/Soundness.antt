-- ===== src/Engine/Soundness.antt =====
-- What the engine keeps between any two calls and halves of expiries, method by method.
use terminal_card.Base.{
  ℕ, ◌≡◌, ap, inl, inr, Bool, true, false, not, ◌&&◌, ◌||◌, Option-cases, length, Option, none,
  some, List, arith, Bool-cases, ◌==◌, leb, ◌+◌,
}
use terminal_card.Base.GoMap.{GoMap, get_or}
use terminal_card.Base.Int.{ℤ, pos}
use terminal_card.Deck.{Card, Pile, Shuffler}
use terminal_card.Game.{Player, State, Phase, EventType, EndReason, Rules, is_playing, is_waiting}
use terminal_card.Engine.{
  Engine, Error, current_player, max_missed_turns, broadcast, close, stop_turn_timer,
  arm_turn_timer, apply_next_turn,
}
use terminal_card.Engine.Actions.{submit_action, submit_action_locked, submit_timed_out_action}
use terminal_card.Engine.Leaving.{remove_player}
use terminal_card.Engine.Timeouts.{
  Resolution, nobody, take_seat, play, charge_miss, resolve_turn_timeout, remove_if_still_idle,
  after_auto_play, carry_out, recover_rules_panic, panic_in_timeout,
}
use terminal_card.Engine.Starting.{roll_back, set_up, seat_first, open_table, start, crypto_int_n}
use terminal_card.Engine.Laws.{KeepsTable}
use terminal_card.Engine.Cursor.{
  HasTurn, apply_next_turn-HasTurn, state-arm_turn_timer, phase-finish_game,
  submit_action_locked-HasTurn, remove_player-HasTurn,
}
use terminal_card.Engine.Ending.{
  IsOrderly, ended, ended_flag, arm_turn_timer-IsOrderly, finish_game-IsOrderly,
  submit_action_locked-IsOrderly, remove_player-IsOrderly, apply_next_turn-IsOrderly,
}

-- What holds of a table between any two steps.
pub record IsSound {X : Type 0} (e : Engine X) : Type 0 where
  pub orderly : IsOrderly e
  pub turn : HasTurn e.state

module _ {X A E : Type 0} (rules : Rules X A E) (laws : KeepsTable rules) (now : ℤ) where
  submit-IsSound :
      (pid : ℕ) (action : A) (present : Bool) (e : Engine X)
      → IsSound e
      → IsSound (submit_action_locked rules now pid action present e).0
  submit-IsSound pid action present e h = record {
    orderly = submit_action_locked-IsOrderly rules now laws pid action present e h.orderly;
    turn = submit_action_locked-HasTurn rules now pid action present e h.turn;
  }

  pub submit_action-IsSound :
      (pid : ℕ) (action : A) (e : Engine X)
      → IsSound e
      → IsSound (submit_action rules now pid action e).0
  unfolding submit_action
  submit_action-IsSound pid action e h = submit-IsSound pid action true e h

  pub remove-IsSound :
      (pid : ℕ) (e : Engine X) → IsSound e → IsSound (remove_player rules now pid e)
  remove-IsSound pid e h = record {
    orderly = remove_player-IsOrderly rules now laws pid e h.orderly;
    turn = remove_player-HasTurn rules now laws pid e h.turn;
  }

  arm-IsSound : (e : Engine X) → IsSound e → IsSound (arm_turn_timer rules now e)
  arm-IsSound e h = record {
    orderly = arm_turn_timer-IsOrderly rules now e h.orderly.ended_once;
    turn = rw (state-arm_turn_timer rules now e) h.turn;
  }

  charge_miss_state : (p : Player) (e : Engine X) → (charge_miss rules now p e).0.state ≡ e.state
  unfolding charge_miss broadcast
  charge_miss_state p e = ground arith

  charge_miss-IsSound :
      (p : Player) (e : Engine X) → IsSound e → IsSound (charge_miss rules now p e).0
  unfolding charge_miss broadcast ended
  charge_miss-IsSound p e h = record {
    orderly = ground arith;
    turn = rw (charge_miss_state p e) h.turn;
  }

  -- The guard of resolveTurnTimeout.
  abbrev skips : ℕ → Engine X → Bool
  skips seq e =
      not (seq == e.turn_seq) || not (is_playing e.state.phase) || (length e.state.players == 0)

  pub resolve-IsSound :
      (seq : ℕ) (e : Engine X) → IsSound e → IsSound (resolve_turn_timeout rules now seq e).0
  unfolding resolve_turn_timeout
  resolve-IsSound seq e h = elim (Bool-cases (skips seq e)) [
    | inl skip ↦ simp skip h
    | inr charge ↦ simp charge (elim (Option-cases (current_player e.state)) [
      | inl nobody_on ↦ simp nobody_on h
      | inr (p, on) ↦ simp on (charge_miss-IsSound p e h)
    ])
  ]

  idle_notice-IsSound :
      (pid : ℕ) (e : Engine X)
      → IsSound e
      → IsSound (broadcast EventType.player_idle pid EndReason.unknown e)
  unfolding broadcast ended
  idle_notice-IsSound pid e h = record { orderly = ground arith; turn = h.turn }

  remove_if_still_idle-IsSound :
      (seq pid : ℕ) (e : Engine X) → IsSound e → IsSound (remove_if_still_idle rules now seq pid e)
  unfolding remove_if_still_idle
  remove_if_still_idle-IsSound seq pid e h = elim (Bool-cases (seq == e.turn_seq)) [
    | inl fresh ↦ simp fresh (
        remove-IsSound pid (broadcast EventType.player_idle pid EndReason.unknown e)
          (idle_notice-IsSound pid e h))
    | inr stale ↦ simp stale h
  ]

  timed_out-IsSound :
      (seq pid : ℕ) (action : A) (e : Engine X)
      → IsSound e
      → IsSound (submit_timed_out_action rules now pid action seq e).0
  unfolding submit_timed_out_action
  timed_out-IsSound seq pid action e h = elim (Bool-cases (seq == e.turn_seq)) [
    | inl fresh ↦ simp fresh (submit-IsSound pid action false e h)
    | inr stale ↦ simp stale h
  ]

  after_auto_play-IsSound :
      (r : Engine X × Option (Error E)) → IsSound r.0 → IsSound (after_auto_play rules now r)
  unfolding after_auto_play
  after_auto_play-IsSound (e, none) h = h
  after_auto_play-IsSound (e, some Error.stale_turn) h = h
  after_auto_play-IsSound (e, some _) h = arm-IsSound e h

  pub carry_out-IsSound :
      (seq : ℕ) (r : Resolution A) (e : Engine X)
      → IsSound e
      → IsSound (carry_out rules now seq r e)
  unfolding carry_out
  carry_out-IsSound seq nobody e h = h
  carry_out-IsSound seq (take_seat pid) e h = elim (Bool-cases (pid == 0)) [
    | inl empty ↦ simp empty h
    | inr real ↦ simp real (remove_if_still_idle-IsSound seq pid e h)
  ]
  carry_out-IsSound seq (play pid action) e h = elim (Bool-cases (pid == 0)) [
    | inl empty ↦ simp empty h
    | inr real ↦ simp real (
        after_auto_play-IsSound (submit_timed_out_action rules now pid action seq e)
          (timed_out-IsSound seq pid action e h))
  ]

  pub panic-IsSound : (e : Engine X) → IsSound e → IsSound (recover_rules_panic rules now e)
  unfolding recover_rules_panic
  panic-IsSound e h = elim (Bool-cases (is_playing e.state.phase && not e.is_closed)) [
    | inl live ↦ simp live (record {
      orderly =
          finish_game-IsOrderly rules now none EndReason.rules_error e (ground (arith, h.orderly));
      turn = inl (ap is_playing (phase-finish_game rules now none EndReason.rules_error e));
    })
    | inr idle ↦ simp idle h
  ]

  missed-IsSound :
      (misses : GoMap ℕ) (e : Engine X) → IsSound e → IsSound (record e { missed_turns = misses })
  unfolding ended
  missed-IsSound misses e h = record { orderly = ground (arith, h.orderly); turn = h.turn }

  pub timeout_panic-IsSound :
      (seq : ℕ) (e : Engine X) → IsSound e → IsSound (panic_in_timeout rules now seq e)
  unfolding panic_in_timeout
  timeout_panic-IsSound seq e h = elim (Bool-cases (skips seq e)) [
    | inl skip ↦ simp skip h
    | inr charge ↦ simp charge (elim (Option-cases (current_player e.state)) [
      | inl nobody_on ↦ simp nobody_on h
      | inr (p, on) ↦
          simp on (elim (Bool-cases (leb max_missed_turns (get_or 0 p.id e.missed_turns + 1))) [
            | inl over ↦ simp over h
            | inr below ↦ simp below (missed-IsSound _ e h)
          ])
    ])
  ]

  rolled_back-IsSound :
      (undealt : List Card) (s : State X) (e : Engine X)
      → IsSound e
      → e.state.phase ≡ Phase.waiting
      → IsSound (record e { state = roll_back undealt s })
  unfolding roll_back
  rolled_back-IsSound undealt s e h w = record {
    orderly = ground (arith, h.orderly);
    turn = inl (ground arith);
  }

  started-IsSound :
      (e : Engine X)
      → ended e.sent ≡ ended_flag e.state.phase
      → IsSound
          (broadcast EventType.game_started 0 EndReason.unknown (apply_next_turn rules now false e))
  unfolding broadcast ended
  started-IsSound e h = record {
    orderly = ground (arith, apply_next_turn-IsOrderly rules now false e h);
    turn = apply_next_turn-HasTurn rules now false e;
  }

  set_up-IsSound :
      (undealt : List Card) (r : State X × Option E) (e : Engine X)
      → IsSound e
      → e.state.phase ≡ Phase.waiting
      → r.0.phase ≡ Phase.playing
      → IsSound (set_up rules now undealt r e).0
  unfolding set_up
  set_up-IsSound undealt (s, some err) e h w q = rolled_back-IsSound undealt s e h w
  set_up-IsSound undealt (s, none) e h w q =
      started-IsSound (record e { state = s }) (ground (arith, h.orderly))

  seat_first-IsSound :
      (undealt : List Card) (deck : Pile) (dealt : List Player) (first : Option ℕ) (e : Engine X)
      → IsSound e
      → e.state.phase ≡ Phase.waiting
      → IsSound (seat_first rules now undealt deck dealt first e).0
  unfolding seat_first
  seat_first-IsSound undealt deck dealt none e h w = rolled_back-IsSound undealt e.state e h w
  seat_first-IsSound undealt deck dealt (some i) e h w = set_up-IsSound undealt _ e h w (
      laws.phase-on_game_start (record (e.state) {
        players = dealt;
        deck = deck;
        phase = Phase.playing;
        current_turn = pos i;
      }))

  open_table-IsSound :
      (rand : ℕ → Option ℕ) (undealt : List Card) (r : Pile × Option (List Player)) (e : Engine X)
      → IsSound e
      → e.state.phase ≡ Phase.waiting
      → IsSound (open_table rules now rand undealt r e).0
  unfolding open_table
  open_table-IsSound rand undealt (deck, none) e h w = rolled_back-IsSound undealt e.state e h w
  open_table-IsSound rand undealt (deck, some dealt) e h w =
      seat_first-IsSound undealt deck dealt (crypto_int_n rand (length e.state.players)) e h w

  pub start-IsSound :
      (sh : Shuffler) (rand : ℕ → Option ℕ) (e : Engine X)
      → IsSound e
      → IsSound (start rules now sh rand e).0
  unfolding start
  start-IsSound sh rand e h = elim (Bool-cases e.is_closed) [
    | inl shut ↦ simp shut h
    | inr still ↦ simp still (elim (Bool-cases (is_waiting e.state.phase)) [
      | inr begun ↦ simp begun h
      | inl fresh ↦ simp fresh (elim (Bool-cases (length e.state.players == 0)) [
        | inl empty ↦ simp empty h
        | inr seated ↦ simp seated (open_table-IsSound rand e.state.deck.cards _ e h (ground arith))
      ])
    ])
  ]

pub close-IsSound : {X : Type 0} (e : Engine X) → IsSound e → IsSound (close e)
unfolding close stop_turn_timer
close-IsSound e h = record { orderly = ground (arith, h.orderly); turn = h.turn }
