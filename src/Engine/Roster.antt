-- ===== src/Engine/Roster.antt =====
-- Who is seated and who has left, across a removal.
use mathlib.Core.Path.{ap₂}
use terminal_card.Base.{
  ℕ, zero, suc, ◌≡◌, refl, ap, ◌∙◌, Bool, false, Option, none, some, List, [], ◌∷◌, ◌++◌, arith,
  erase_at,
}
use terminal_card.Base.Int.{ℤ}
use terminal_card.Game.{Player, State, Phase, EndReason, Rules, is_finished_phase, index_of}
use terminal_card.Engine.{
  Engine, clamp_state, broadcast, stop_turn_timer, next_turn, apply_next_turn, finish_game,
  settle_winner,
}
use terminal_card.Engine.Cursor.{state-arm_turn_timer}
use terminal_card.Engine.Leaving.{
  move_to_left, on_leave, last_seat, seats_left, settle_table, vacate, settle_vacated,
  remove_player, remove_seat_found,
}
use terminal_card.Engine.Laws.{KeepsTable, ids, seat_found}

-- The seated and the leavers of two states are the same.
pub record SameRoster {X : Type 0} (s t : State X) : Type 0 where
  pub same_players : s.players ≡ t.players
  pub same_left : s.left_players ≡ t.left_players

map-erase_at : (i : ℕ) (ps : List Player) → ids (erase_at i ps) ≡ erase_at i (ids ps)
map-erase_at i [] = refl
map-erase_at zero (p ∷ ps) = refl
map-erase_at (suc i) (p ∷ ps) = ap (◌∷◌ p.id) (map-erase_at i ps)

ids-append : (ps qs : List Player) → ids (ps ++ qs) ≡ ids ps ++ ids qs
ids-append [] qs = refl
ids-append (p ∷ ps) qs = ap (◌∷◌ p.id) (ids-append ps qs)

module _ {X : Type 0} where
  roster-next_turn :
      (advance : Bool) (s : State X) → SameRoster (clamp_state (next_turn advance s)) s
  unfolding next_turn clamp_state
  roster-next_turn advance s = ground arith

  roster-settle_winner :
      (order : List (Option Player)) (fallback : Option Player) (s : State X)
      → SameRoster (settle_winner order fallback s) s
  unfolding settle_winner
  roster-settle_winner [] fallback s = ground arith
  roster-settle_winner (w ∷ ws) fallback s = ground arith

module _ {X A E : Type 0} (rules : Rules X A E) (now : ℤ) where
  roster-apply_next_turn :
      (advance : Bool) (e : Engine X)
      → SameRoster (apply_next_turn rules now advance e).state e.state
  unfolding apply_next_turn
  roster-apply_next_turn advance e =
      rw
        (state-arm_turn_timer rules now
          (record e { state = clamp_state (next_turn advance e.state) }))
        (roster-next_turn advance e.state)

  roster-finish_game :
      (fallback : Option Player) (reason : EndReason) (e : Engine X)
      → SameRoster (finish_game rules now fallback reason e).state e.state
  unfolding finish_game
  roster-finish_game fallback reason e =
      let s : State X = record (e.state) { phase = Phase.finished } in
      ground (arith, roster-settle_winner (rules.standings s) fallback s)

  roster-last_seat :
      (next : Option ℤ) (p : Player) (e : Engine X)
      → SameRoster (last_seat rules now next p e).state e.state
  unfolding last_seat broadcast stop_turn_timer
  roster-last_seat none p e = ground arith
  roster-last_seat (some t) p e = roster-apply_next_turn false e

  roster-seats_left :
      (ps : List Player) (p : Player) (e : Engine X)
      → SameRoster (seats_left rules now ps p e).state e.state
  unfolding seats_left broadcast
  roster-seats_left [] p e = roster-last_seat e.state.override_next_turn p e
  roster-seats_left (_ ∷ _) p e = roster-apply_next_turn false e

  roster-settle_table :
      (ps : List Player) (e : Engine X) → SameRoster (settle_table rules now ps e).state e.state
  unfolding settle_table broadcast stop_turn_timer
  roster-settle_table [] e = ground arith
  roster-settle_table (p ∷ ps) e =
      ground (arith, roster-finish_game none EndReason.win e, roster-seats_left ps p e)

  roster-settle_vacated : (e : Engine X) → SameRoster (settle_vacated rules now e).state e.state
  unfolding settle_vacated
  roster-settle_vacated e = ground (arith, roster-settle_table e.state.players e)

  module _ (laws : KeepsTable rules) where
    vacate_roster :
        (pid : ℕ) (p : Player) (i : ℕ) (e : Engine X)
        → (ids (vacate rules now pid p i e).state.players ≡ erase_at i (ids e.state.players))
          × (ids (vacate rules now pid p i e).state.left_players
              ≡ ids e.state.left_players ++ p.id ∷ [])
    unfolding vacate broadcast move_to_left clamp_state
    vacate_roster pid p i e = (
      laws.ids-after_removed (move_to_left e.state i p) i ∙ map-erase_at i e.state.players,
      laws.left-after_removed (move_to_left e.state i p) i
          ∙ ids-append e.state.left_players (p ∷ []),
    )

    -- Under rules that keep the table, removing a player before the end takes the first seat with
    -- the id out, leaves the other seats in their order, and appends the id to the leavers.
    pub remove_player_roster :
        (pid i : ℕ) (e : Engine X)
        → is_finished_phase e.state.phase ≡ false
        → index_of pid e.state.players ≡ some i
        → (ids (remove_player rules now pid e).state.players ≡ erase_at i (ids e.state.players))
          × (ids (remove_player rules now pid e).state.left_players
              ≡ ids e.state.left_players ++ pid ∷ [])
    unfolding remove_player
    remove_player_roster pid i e live found =
        let (p, there, own) = seat_found rules laws e.state pid i found in
        let e' : Engine X = record e { state = on_leave rules e.state pid } in
        let (sits, left) = vacate_roster pid p i e' in
        let settled = roster-settle_vacated (vacate rules now pid p i e') in
        simp (live, found)
          (simp
            (remove_seat_found rules now pid i e' p there, settled.same_players, settled.same_left)
            (
              sits ∙ ap (erase_at i) (laws.ids-on_leave e.state pid),
              left ∙ ap₂ (λ xs x. xs ++ x ∷ []) (laws.left-on_leave e.state pid) own,
            ))
