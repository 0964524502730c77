-- ===== src/Game.antt =====
-- internal/game: players (player.go), the table's state (state.go), events (action.go) and the
-- interface between the engine and a game's rules (rules.go). An id or a name is a number in place
-- of its string: 0 for the empty string, and ordered as the strings are.
pub mod Cards
pub mod Scores
pub mod Shed
use terminal_card.Base.{
  ℕ, suc, Bool, true, false, ◌&&◌, not, ◌||◌, Option, none, some, List, [], ◌∷◌, ◌==◌,
  if◌then◌else◌, get_elem?,
}
use terminal_card.Base.Int.{ℤ, pos, negsuc}
use terminal_card.Deck.{Card, Pile}

pub record Player : Type 0 where
  pub id : ℕ
  pub user_id : ℕ  -- 0 for uuid.Nil
  pub name : ℕ
  pub cards : List Card

-- Player.Equal, of two players that are not nil.
unfoldable pub player_equal : Player → Player → Bool
player_equal p q =
    if (p.user_id == 0) || (q.user_id == 0)
    then not (p.id == 0) && (p.id == q.id)
    else p.user_id == q.user_id

unfoldable pub display_name : Player → ℕ
display_name p = if p.name == 0 then p.id else p.name

pub data Phase : Type 0 where
  waiting playing finished : Phase

pub Phase-discrete : Discrete Phase
Phase-discrete = hlevel

abbrev pub is_playing : Phase → Bool
is_playing playing = true
is_playing _ = false

abbrev pub is_waiting : Phase → Bool
is_waiting waiting = true
is_waiting _ = false

abbrev pub is_finished_phase : Phase → Bool
is_finished_phase finished = true
is_finished_phase _ = false

-- State. `extra` is what the rules keep; `discard` is none for a nil pile.
pub record State (X : Type 0) : Type 0 where
  pub players : List Player
  pub left_players : List Player
  pub current_turn : ℤ
  pub override_next_turn : Option ℤ
  pub phase : Phase
  pub winner : Option Player
  pub deck : Pile
  pub discard : Option Pile
  pub extra : X

pub data EventType : Type 0 where
  turn_advanced action_applied game_ended game_started turn_timed_out player_idle : EventType
  player_left : EventType

pub data EndReason : Type 0 where
  unknown win rules_error forfeit abandoned : EndReason

pub record Event : Type 0 where
  pub type : EventType
  pub player_id : ℕ
  pub reason : EndReason

-- PlayerLeaveHandler.
pub record LeaveHandler (X : Type 0) : Type 0 where
  pub on_player_leave : State X → ℕ → State X
  pub after_player_removed : State X → ℕ → State X

-- Rules, over the rules' own state X, actions A and errors E. A hook that changes the state returns
-- the new one, with an error where it reports one. The optional interfaces are Options:
-- TurnTimeoutHandler, TurnDurationHandler, PlayerLeaveHandler, StandingScorer. A nil in the
-- slice that Standings returns is none.
pub record Rules (X A E : Type 0) : Type 0 where
  pub initial_deal_count : ℤ
  pub on_game_start : State X → State X × Option E
  pub validate_action : State X → A → Option E
  pub apply_action : State X → A → State X × Option E
  pub after_action : State X → A → State X × Option E
  pub check_win_condition : State X → Bool
  pub standings : State X → List (Option Player)
  pub timeout_action : Option (State X → Option A)
  pub turn_timeout : Option (State X → ℤ)
  pub leave_handler : Option (LeaveHandler X)
  pub standing_score : Option (State X → Player → ℤ)

-- The seat that an int index points at, if the index is in range.
abbrev pub seat : ℤ → List Player → Option Player
seat (pos i) ps = get_elem? ps i
seat (negsuc i) ps = none

-- slices.IndexFunc for a player's id.
unfoldable pub index_of : ℕ → List Player → Option ℕ
index_of pid [] = none
index_of pid (p ∷ ps) =
    let rest = index_of pid ps in
    if p.id == pid then some 0 else elim rest [ none ↦ none | some i ↦ some (suc i) ]

-- Whether a list of players holds an id.
unfoldable pub contains_id : ℕ → List Player → Bool
contains_id pid [] = false
contains_id pid (p ∷ ps) = if p.id == pid then true else contains_id pid ps
