-- ===== src/Examples/Tables.antt =====
-- internal/game's engine at a poker table of two.
use mathlib.Core.List.Perm
use terminal_card.Base.{
  ℕ, ◌++◌, ◌≤◌, ◌≡◌, refl, ◌⊎◌, inr, true, false, Option, none, some, List, [], ◌∷◌, arith, All,
  take, drop, erase_at,
}
use terminal_card.Base.Int.{pos}
use terminal_card.Deck.{Pile, Shuffler, shuffle_pile}
use terminal_card.Game.{Player, State, Rules, Phase, index_of, contains_id}
use terminal_card.Engine.{Engine, new_engine, current_player}
use terminal_card.Engine.Actions.{submit_action, submit_action_locked}
use terminal_card.Engine.Leaving.{remove_player}
use terminal_card.Engine.Timeouts.{play, carry_out}
use terminal_card.Engine.Starting.{start, deal_hands}
use terminal_card.Engine.Places.{places}
use terminal_card.Engine.Laws.{ids, KeepsTable}
use terminal_card.Engine.Cursor.{HasTurn, submit_action_locked-HasTurn, remove_player-HasTurn}
use terminal_card.Engine.Ending.{
  IsOrderly, ended, submit_action_locked-IsOrderly, remove_player-IsOrderly,
}
use terminal_card.Engine.Clock.{carry_out-submit_action}
use terminal_card.Engine.Roster.{remove_player_roster}
use terminal_card.Engine.Deal.{IsDeal, deal_hands-shuffle_pile-IsDeal, IsRestored, start_outcomes}
use terminal_card.Engine.Ranking.{is_leaver, leavers_rank_below}
use terminal_card.Engine.Runs.{Step, Reach, Reach-new_engine}
use terminal_card.Engine.Soundness.{IsSound}
use terminal_card.Poker.{Error}
use terminal_card.Poker.Betting.{Action}
use terminal_card.Poker.Match.{new_match, is_showdown}
use terminal_card.Poker.Leaving.{poker_rules}
use terminal_card.Poker.Absent.{IsOnTurn, IsSafe, timeout_action-IsSafe}
use terminal_card.Poker.Roster.Hooks.{poker_rules-KeepsTable}

abbrev player : ℕ → Player
player n = record { id = n; user_id = n; name = 0; cards = [] }

-- A shuffler that leaves the cards as they are.
abbrev in_order : Shuffler
in_order = record { shuffle = λ cs. cs; shuffle-perm = Perm.refl }

abbrev rules : Rules (Option terminal_card.Poker.State) Action Error
rules = poker_rules in_order

abbrev laws : KeepsTable rules
laws = poker_rules-KeepsTable in_order

abbrev match : terminal_card.Poker.State
match = record (new_match (player 1 ∷ player 2 ∷ []) 0) { current_bet = 50 }

abbrev table : State (Option terminal_card.Poker.State)
table = record {
  players = player 1 ∷ player 2 ∷ [];
  left_players = [];
  current_turn = pos 1;
  override_next_turn = none;
  phase = Phase.playing;
  winner = none;
  deck = record { cards = [] };
  discard = none;
  extra = some match;
}

-- The table in play, with the timer of the fifth turn armed.
abbrev engine : Engine (Option terminal_card.Poker.State)
engine = record {
  state = table;
  is_closed = false;
  turn_timeout = pos 30;
  turn_seq = 5;
  turn_timer = some 5;
  turn_deadline = some (pos 90);
  missed_turns = [];
  sent = [];
}

-- The same table before its start, with cards in the stock.
abbrev lobby_engine : Engine (Option terminal_card.Poker.State)
lobby_engine = record engine {
  state = record table { phase = Phase.waiting; extra = none; current_turn = pos 0 };
  turn_timer = none;
  turn_deadline = none;
}

has_turn : HasTurn engine.state
unfolding current_player
has_turn = inr (inr (player 2, refl))

orderly : IsOrderly engine
unfolding ended
orderly = record { ended_once = refl; clock = inr (refl, refl, refl) }

abbrev fresh : Engine (Option terminal_card.Poker.State)
fresh = new_engine none (player 1 ∷ player 2 ∷ []) [] (pos 30)

abbrev started : Engine (Option terminal_card.Poker.State)
started = (start rules (pos 0) in_order (λ n. some 0) fresh).0

abbrev folded : Engine (Option terminal_card.Poker.State)
folded = (submit_action rules (pos 1) 2 Action.fold started).0

abbrev deserted : Engine (Option terminal_card.Poker.State)
deserted = remove_player rules (pos 2) 1 folded

abbrev late : Engine (Option terminal_card.Poker.State)
late = carry_out rules (pos 3) 1 (play 2 Action.fold) deserted

-- A new table is started, the second player folds, the first leaves and an old expiry comes late.
history : Reach rules fresh late
history =
    Reach.next
      (Reach.next
        (Reach.next (Reach.next Reach.here (Step.starts (pos 0) in_order (λ n. some 0)))
          (Step.submits (pos 1) 2 Action.fold))
        (Step.removes (pos 2) 1))
      (Step.settles (pos 3) 1 (play 2 Action.fold))

Reach-new_engine_example : IsSound late
Reach-new_engine_example =
    Reach-new_engine rules laws none (player 1 ∷ player 2 ∷ []) [] (pos 30) history

submit_action_locked-HasTurn_example :
    HasTurn (submit_action_locked rules (pos 7) 2 Action.fold true engine).0.state
submit_action_locked-HasTurn_example =
    submit_action_locked-HasTurn rules (pos 7) 2 Action.fold true engine has_turn

remove_player-HasTurn_example : HasTurn (remove_player rules (pos 7) 2 engine).state
remove_player-HasTurn_example = remove_player-HasTurn rules (pos 7) laws 2 engine has_turn

submit_action_locked-IsOrderly_example :
    IsOrderly (submit_action_locked rules (pos 7) 2 Action.fold true engine).0
submit_action_locked-IsOrderly_example =
    submit_action_locked-IsOrderly rules (pos 7) laws 2 Action.fold true engine orderly

remove_player-IsOrderly_example : IsOrderly (remove_player rules (pos 7) 1 engine)
remove_player-IsOrderly_example = remove_player-IsOrderly rules (pos 7) laws 1 engine orderly

carry_out-submit_action_example :
    let after = (submit_action rules (pos 7) 2 Action.fold engine).0 in
    (after ≡ engine) ⊎ (carry_out rules (pos 7) 5 (play 2 Action.fold) after ≡ after)
carry_out-submit_action_example =
    carry_out-submit_action rules (pos 7) (play 2 Action.fold) 2 Action.fold engine (omega arith)

second_seat : index_of 2 engine.state.players ≡ some 1
unfolding index_of
second_seat = refl

remove_player_roster_example :
    (ids (remove_player rules (pos 7) 2 engine).state.players
      ≡ erase_at 1 (ids engine.state.players))
    × (ids (remove_player rules (pos 7) 2 engine).state.left_players
        ≡ ids engine.state.left_players ++ 2 ∷ [])
remove_player_roster_example = remove_player_roster rules (pos 7) laws 2 1 engine refl second_seat

abbrev stock : Pile
stock = record {
  cards =
      record { rank = 2; suit = 1 }
      ∷ record { rank = 3; suit = 1 }
      ∷ record { rank = 4; suit = 1 }
      ∷ [];
}

abbrev dealt : List Player
dealt =
    record (player 1) { cards = record { rank = 4; suit = 1 } ∷ [] }
    ∷ record (player 2) { cards = record { rank = 3; suit = 1 } ∷ [] }
    ∷ []

deals_two :
    deal_hands (pos 1) (player 1 ∷ player 2 ∷ []) (shuffle_pile in_order stock)
    ≡ (record { cards = record { rank = 2; suit = 1 } ∷ [] }, some dealt)
unfolding deal_hands shuffle_pile
deals_two = refl

deal_hands-shuffle_pile-IsDeal_example :
    IsDeal
      (pos 1)
      (player 1 ∷ player 2 ∷ [])
      stock
      (record { cards = record { rank = 2; suit = 1 } ∷ [] })
      dealt
deal_hands-shuffle_pile-IsDeal_example =
    deal_hands-shuffle_pile-IsDeal in_order (pos 1) (player 1 ∷ player 2 ∷ []) stock
      (record { cards = record { rank = 2; suit = 1 } ∷ [] }) dealt deals_two

start_outcomes_example :
    ((start rules (pos 7) in_order (λ n. none) lobby_engine).1 ≡ none)
    ⊎ ((start rules (pos 7) in_order (λ n. none) lobby_engine).0 ≡ lobby_engine)
    ⊎ IsRestored lobby_engine.state (start rules (pos 7) in_order (λ n. none) lobby_engine).0.state
start_outcomes_example = start_outcomes rules (pos 7) in_order (λ n. none) lobby_engine

abbrev with_leaver : State (Option terminal_card.Poker.State)
with_leaver = record table { left_players = player 3 ∷ [] }

leaver : is_leaver with_leaver (some (player 3)) ≡ true
unfolding contains_id
leaver = refl

seated_two : All (λ x. is_leaver with_leaver x ≡ false) (some (player 1) ∷ some (player 2) ∷ [])
unfolding contains_id
seated_two = (refl, (refl, tt))

leavers_rank_below_example :
    All
      (λ m. m ≤ 2)
      (take 2 (places rules with_leaver (some (player 1) ∷ some (player 2) ∷ some (player 3) ∷ [])))
    × All
        (λ m. 3 ≤ m)
        (drop 2
          (places rules with_leaver (some (player 1) ∷ some (player 2) ∷ some (player 3) ∷ [])))
leavers_rank_below_example =
    leavers_rank_below rules with_leaver (some (player 1) ∷ some (player 2) ∷ []) (some (player 3))
      [] seated_two leaver

waits_for_second : IsOnTurn table match (player 2)
unfolding new_match is_showdown
waits_for_second = record {
  own = refl;
  in_hand = refl;
  betting = refl;
  on_turn = refl;
  live = refl;
}

timeout_action-IsSafe_example : (a : Action) × IsSafe table match (player 2) a
timeout_action-IsSafe_example = timeout_action-IsSafe table match (player 2) waits_for_second

poker_rules-KeepsTable_example : KeepsTable rules
poker_rules-KeepsTable_example = poker_rules-KeepsTable in_order
