-- ===== src/Examples/Lobbies.antt =====
-- A lobby that plays Crazy Eights.
use mathlib.Core.List.Perm
use mathlib.Core.Option
use terminal_card.Base.{ℕ, ◌≡◌, inr, refl, subst, Option, none, some, []}
use terminal_card.Base.Int.{pos}
use terminal_card.Deck.{Shuffler, standard_deck}
use terminal_card.Game.{Player}
use terminal_card.Engine.Laws.{KeepsTable}
use terminal_card.CrazyEight
use terminal_card.CrazyEight.Hooks.{crazy_rules-KeepsTable}
use terminal_card.Lobby.{
  Lobby, CardGame, Options, default_options, add_guest, Status, new_lobby, toggle_ready, leave,
}
use terminal_card.Lobby.Roster.{IsOrderly}
use terminal_card.Lobby.Runs.{Step, Histories, Histories-new_lobby}

abbrev in_order : Shuffler
in_order = record { shuffle = λ cs. cs; shuffle-perm = Perm.refl }

abbrev visitor : ℕ → Player
visitor n = record { id = n; user_id = n; name = 0; cards = [] }

abbrev Eights : Type 0
Eights = CardGame (Option CrazyEight.State) CrazyEight.Action CrazyEight.Error

abbrev eights : Eights
eights = record {
  rules = CrazyEight.crazy_rules in_order;
  min_players = 2;
  max_players = 6;
  initial_deck = standard_deck;
  no_extra = none;
}

abbrev registry : ℕ → Option Eights
registry name = some eights

registry-KeepsTable : (name : ℕ) (g : Eights) → registry name ≡ some g → KeepsTable g.rules
registry-KeepsTable name g h =
    subst (λ g. KeepsTable g.rules) (Option.some_inj.0 h) (crazy_rules-KeepsTable in_order)

abbrev GameLobby : Type 0
GameLobby = Lobby (Option CrazyEight.State) CrazyEight.Action CrazyEight.Error

abbrev eights_options : Options
eights_options = record default_options { card_game = 3 }

abbrev first_lobby : GameLobby
first_lobby = record {
  leader = visitor 1;
  guests = [];
  options = eights_options;
  status = Status.waiting;
  ready = [];
  active = none;
  sent = [];
}

first_lobby_made : new_lobby (visitor 1) eights_options ≡ inr first_lobby
unfolding new_lobby
first_lobby_made = refl

abbrev joined_lobby : GameLobby
joined_lobby = (add_guest (visitor 2) first_lobby).0

abbrev half_ready : GameLobby
half_ready = (toggle_ready registry (pos 0) in_order (λ n. some 0) (visitor 1) joined_lobby).0

abbrev playing_lobby : GameLobby
playing_lobby = (toggle_ready registry (pos 0) in_order (λ n. some 0) (visitor 2) half_ready).0

-- Two players start a game, and the leader leaves it.
evening : Histories registry first_lobby (leave (pos 5) (visitor 1) playing_lobby)
evening =
    Histories.next
      (Histories.next
        (Histories.next (Histories.next Histories.here (Step.joins (visitor 2)))
          (Step.toggles (pos 0) in_order (λ n. some 0) (visitor 1)))
        (Step.toggles (pos 0) in_order (λ n. some 0) (visitor 2)))
      (Step.leaves (pos 5) (visitor 1))

Histories-new_lobby_example : IsOrderly (leave (pos 5) (visitor 1) playing_lobby)
Histories-new_lobby_example =
    Histories-new_lobby registry registry-KeepsTable (visitor 1) eights_options first_lobby_made
      evening
