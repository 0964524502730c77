-- ===== src/Engine.antt =====
-- internal/game/engine.go: the engine that owns a table. A method takes the engine
-- and returns the new one with its result; the mutex makes each method one step. `now` is what
-- time.Now returns in that step. The engine's calls of Broadcast stand in `sent`, newest first.
pub mod Actions
pub mod Leaving
pub mod Timeouts
pub mod Starting
pub mod Places
pub mod Laws
pub mod Cursor
pub mod Ending
pub mod Clock
pub mod Roster
pub mod Deal
pub mod Ranking
pub mod Soundness
pub mod Runs
use terminal_card.Base.{
  ℕ, zero, suc, ◌+◌, ◌%◌, ◌≡◌, Bool, true, false, ◌&&◌, ◌||◌, not, Option, none, some, List, [],
  ◌∷◌, ◌++◌, reverse, ◌==◌, ltb, leb, if◌then◌else◌, length, erase_at,
}
use terminal_card.Base.Int.{ℤ, pos, negsuc, ◌+ℤ◌, rem, ltb_ℤ, eqb_ℤ}
use terminal_card.Base.Words.{u64_mod}
use terminal_card.Base.GoMap.{GoMap, get_or, put, delete}
use terminal_card.Deck.{Card, Pile, Shuffler, shuffle_pile, draw_n_cards}
use terminal_card.Deck
use terminal_card.Game.{
  Player, State, Phase, Event, EventType, EndReason, Rules, LeaveHandler, seat, index_of,
  contains_id, is_playing, is_waiting, is_finished_phase,
}

-- The errors of the engine's own checks, and those of the rules wrapped.
pub data Error (E : Type 0) : Type 0 where
  closed not_playing not_your_turn stale_turn already_started no_players : Error E
  not_enough_cards no_entropy : Error E
  refused apply_failed after_failed setup_failed : E → Error E

-- A deadline or timer that is not set is none. The armed timer keeps the turn sequence it was
-- armed for.
pub record Engine (X : Type 0) : Type 0 where
  pub state : State X
  pub is_closed : Bool
  pub turn_timeout : ℤ
  pub turn_seq : ℕ  -- uint64
  pub turn_timer : Option ℕ
  pub turn_deadline : Option ℤ
  pub missed_turns : GoMap ℕ
  pub sent : List Event

abbrev pub max_missed_turns : ℕ
max_missed_turns = 3

-- time.Duration counts nanoseconds.
abbrev pub default_turn_timeout : ℤ
default_turn_timeout = pos 30000000000

-- NewEngine with NewState, the turn timeout as the options left it.
unfoldable pub new_engine : {X : Type 0} → X → List Player → List Card → ℤ → Engine X
new_engine x players cards timeout = record {
  state = record {
    players = players;
    left_players = [];
    current_turn = pos 0;
    override_next_turn = none;
    phase = Phase.waiting;
    winner = none;
    deck = Deck.new cards;
    discard = none;
    extra = x;
  };
  is_closed = false;
  turn_timeout = timeout;
  turn_seq = 0;
  turn_timer = none;
  turn_deadline = none;
  missed_turns = [];
  sent = [];
}

-- clampTurnLocked's arithmetic: ((turn % n) + n) % n, and 0 at an empty table.
unfoldable pub clamp_turn : ℤ → ℕ → ℤ
clamp_turn t zero = pos 0
clamp_turn t (suc n) = rem (rem t (suc n) +ℤ pos (suc n)) (suc n)

unfoldable pub id_or_empty : Option Player → ℕ
id_or_empty none = 0
id_or_empty (some p) = p.id

module _ {X : Type 0} where
  unfoldable pub current_player : State X → Option Player
  current_player s = seat s.current_turn s.players

  unfoldable pub clamp_state : State X → State X
  clamp_state s = record s { current_turn = clamp_turn s.current_turn (length s.players) }

  -- broadcaster.Broadcast, as recorded.
  unfoldable pub broadcast : EventType → ℕ → EndReason → Engine X → Engine X
  broadcast t pid r e = record e {
    sent = record { type = t; player_id = pid; reason = r } ∷ e.sent;
  }

  unfoldable pub stop_turn_timer : Engine X → Engine X
  stop_turn_timer e = record e {
    turn_seq = (e.turn_seq + 1) % u64_mod;
    turn_timer = none;
    turn_deadline = none;
  }

  -- applyNextTurnLocked's move of the cursor, before it is clamped.
  unfoldable pub next_turn : Bool → State X → State X
  next_turn advance s = elim s.override_next_turn [
    | some t ↦ record s { current_turn = t; override_next_turn = none }
    | none ↦ if advance then record s { current_turn = s.current_turn +ℤ pos 1 } else s
  ]

  unfoldable pub settle_winner : List (Option Player) → Option Player → State X → State X
  settle_winner (w ∷ ws) fallback s = record s { winner = w }
  settle_winner [] (some p) s = record s { winner = some p }
  settle_winner [] none s = elim s.players [ [] ↦ s | p ∷ ps ↦ record s { winner = some p } ]

  unfoldable pub close : Engine X → Engine X
  unfolding stop_turn_timer
  close e = stop_turn_timer (record e { is_closed = true })

module _ {X A E : Type 0} (rules : Rules X A E) (now : ℤ) where
  -- The turn's time limit: the rules' own, where they set a positive one.
  unfoldable pub turn_limit : Engine X → ℤ
  turn_limit e = elim rules.turn_timeout [
    | none ↦ e.turn_timeout
    | some h ↦ if ltb_ℤ (pos 0) (h e.state) then h e.state else e.turn_timeout
  ]

  unfoldable pub arm_turn_timer : Engine X → Engine X
  unfolding stop_turn_timer turn_limit
  arm_turn_timer e =
      let e' = stop_turn_timer e in
      if e.is_closed
        || not (ltb_ℤ (pos 0) e.turn_timeout)
        || not (is_playing e.state.phase)
        || (length e.state.players == 0)
      then e'
      else elim rules.timeout_action [
        | none ↦ e'
        | some _ ↦ record e' {
          turn_deadline = some (now +ℤ turn_limit e);
          turn_timer = some e'.turn_seq;
        }
      ]

  unfoldable pub apply_next_turn : Bool → Engine X → Engine X
  apply_next_turn advance e =
      arm_turn_timer (record e { state = clamp_state (next_turn advance e.state) })

  unfoldable pub finish_game : Option Player → EndReason → Engine X → Engine X
  unfolding settle_winner stop_turn_timer broadcast id_or_empty
  finish_game fallback reason e =
      let s = record (e.state) { phase = Phase.finished } in
      let s' = settle_winner (rules.standings s) fallback s in
      broadcast EventType.game_ended (id_or_empty s'.winner) reason
        (record (stop_turn_timer e) { state = s' })
