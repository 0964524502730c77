-- ===== src/Poker.antt =====
-- internal/game/poker: the state of a match (state.go), and what the rest of the package reads of it.
-- `int` seats and hand numbers are never negative and are numbers; chips are uint and wrap. An index
-- out of range, a division by zero or a nil read is the error `panic`.
pub mod Betting
pub mod Pots
pub mod Evaluator
pub mod Scores
pub mod Streets
pub mod Hands
pub mod Standings
pub mod Match
pub mod Leaving
pub mod Roster
pub mod Absent
pub mod Raises
pub mod Chips
use terminal_card.Base.{
  ℕ, zero, suc, ◌+◌, ◌%◌, ◌≡◌, Bool, true, false, not, ◌&&◌, ◌||◌, Option, none, some, List, [],
  ◌∷◌, ◌++◌, ◌==◌, ltb, leb, if◌then◌else◌, get_elem?, length,
}
use terminal_card.Base.Words.{u_add, u_sub}
use terminal_card.Base.GoMap.{GoMap, get_or, put}
use terminal_card.Deck.{Card}
use terminal_card.Game.{Player, State as TableState}

pub data RoundPhase : Type 0 where
  unknown pre_flop flop turn river showdown : RoundPhase

pub record Pot : Type 0 where
  pub amount : ℕ
  pub eligible : List ℕ

pub record State : Type 0 where
  pub dealer_index : ℕ
  pub sb_index : ℕ
  pub bb_index : ℕ
  pub main_pool : ℕ
  pub current_bet : ℕ
  pub min_raise : ℕ
  pub small_blind : ℕ
  pub big_blind : ℕ
  pub phase : RoundPhase
  pub folded : GoMap Bool
  pub players_all_in : GoMap Bool
  pub table : List Card
  pub player_chips : GoMap ℕ
  pub player_bets : GoMap ℕ
  pub total_contributed : GoMap ℕ
  pub acted_this_round : GoMap Bool
  pub pots : List Pot
  pub hand_complete : Bool
  pub winners : List Player
  pub reached_showdown : Bool
  pub hand_number : ℕ
  pub hands_total : ℕ
  pub match_complete : Bool
  pub busted_at_hand : GoMap ℕ
  pub hand_start_chips : ℕ

-- The table, with the match as its Extra: none is a value of another type.
abbrev pub Table : Type 0
Table = TableState (Option State)

pub data Error : Type 0 where
  invalid_state hand_over cannot_act_now must_call nothing_to_call no_chips not_reopened : Error
  raise_too_low raise_uncallable not_enough_chips below_min_raise not_allowed : Error
  still_played match_over no_players deck_empty too_few_cards too_few_funded panic : Error

-- The maps, read with their zero values.
abbrev pub chips : State → ℕ → ℕ
chips x pid = get_or 0 pid x.player_chips

abbrev pub bet : State → ℕ → ℕ
bet x pid = get_or 0 pid x.player_bets

abbrev pub contributed : State → ℕ → ℕ
contributed x pid = get_or 0 pid x.total_contributed

abbrev pub is_folded : State → ℕ → Bool
is_folded x pid = get_or false pid x.folded

abbrev pub is_all_in : State → ℕ → Bool
is_all_in x pid = get_or false pid x.players_all_in

abbrev pub has_acted : State → ℕ → Bool
has_acted x pid = get_or false pid x.acted_this_round

unfoldable pub to_call : State → ℕ → ℕ
to_call x pid = if leb x.current_bet (bet x pid) then 0 else u_sub x.current_bet (bet x pid)

unfoldable pub cannot_act : State → ℕ → Bool
cannot_act x pid = is_folded x pid || is_all_in x pid || (chips x pid == 0)

unfoldable pub active_players : State → List Player → List Player
active_players x [] = []
active_players x (p ∷ ps) =
    let rest = active_players x ps in if is_folded x p.id then rest else p ∷ rest

-- The leavers among the contenders: those who left while all-in.
unfoldable pub all_in_leavers : State → List Player → List Player
all_in_leavers x [] = []
all_in_leavers x (p ∷ ps) =
    let rest = all_in_leavers x ps in
    if not (is_folded x p.id) && is_all_in x p.id then p ∷ rest else rest

unfoldable pub contenders : Table → State → List Player
unfolding active_players all_in_leavers
contenders t x = active_players x t.players ++ all_in_leavers x t.left_players

-- The sum of the stacks, added as uint to what is there.
unfoldable pub add_values : ℕ → GoMap ℕ → ℕ
add_values acc [] = acc
add_values acc ((k, v) ∷ m) = add_values (u_add acc v) m

unfoldable pub chips_in_play : State → ℕ
unfolding add_values
chips_in_play x = add_values x.main_pool x.player_chips

-- PlayerChips[id] += amount, and MainPool -= amount.
unfoldable pub credit : ℕ → ℕ → State → State
credit pid amount x = record x {
  player_chips = put pid (u_add (chips x pid) amount) x.player_chips;
}

unfoldable pub take_from_pool : ℕ → State → State
take_from_pool amount x = record x { main_pool = u_sub x.main_pool amount }
