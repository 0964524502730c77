-- ===== src/Engine/Leaving.antt =====
-- engine.go's removePlayerLocked: a seat is vacated and the table settled.
use terminal_card.Base.{
  get_elem?, inl, inr, Bool-cases, Option-cases, ℕ, ◌≡◌, false, Option, none, some, List, [], ◌∷◌,
  ◌++◌, if◌then◌else◌, erase_at,
}
use terminal_card.Base.Int.{ℤ, pos, negsuc, ◌+ℤ◌, ltb_ℤ}
use terminal_card.Base.GoMap.{delete}
use terminal_card.Game.{
  Player, State, Phase, EventType, EndReason, Rules, index_of, is_playing, is_finished_phase,
}
use terminal_card.Engine.{
  Engine, clamp_state, broadcast, stop_turn_timer, apply_next_turn, finish_game,
}

module _ {X : Type 0} where
  -- The roster that a leave produces, before the hooks' own part.
  unfoldable pub move_to_left : State X → ℕ → Player → State X
  move_to_left s i p = clamp_state (record s {
    left_players = s.left_players ++ p ∷ [];
    players = erase_at i s.players;
    current_turn =
        if ltb_ℤ (pos i) s.current_turn then s.current_turn +ℤ negsuc 0 else s.current_turn;
  })

module _ {X A E : Type 0} (rules : Rules X A E) where
  unfoldable pub on_leave : State X → ℕ → State X
  on_leave s pid = elim rules.leave_handler [ none ↦ s | some h ↦ h.on_player_leave s pid ]

  unfoldable pub after_removed : State X → ℕ → State X
  after_removed s i = elim rules.leave_handler [ none ↦ s | some h ↦ h.after_player_removed s i ]

module _ {X A E : Type 0} (rules : Rules X A E) (now : ℤ) where
  -- One seat is left: the hand goes on if the rules named a turn, or the seat wins by forfeit.
  unfoldable pub last_seat : Option ℤ → Player → Engine X → Engine X
  last_seat (some _) p e =
      broadcast EventType.turn_advanced 0 EndReason.unknown (apply_next_turn rules now false e)
  last_seat none p e = broadcast EventType.game_ended p.id EndReason.forfeit (
      stop_turn_timer
        (record e { state = record (e.state) { phase = Phase.finished; winner = some p } }))

  -- The seats that are left, after the first.
  unfoldable pub seats_left : List Player → Player → Engine X → Engine X
  seats_left [] p e = last_seat e.state.override_next_turn p e
  seats_left (_ ∷ _) p e =
      broadcast EventType.turn_advanced 0 EndReason.unknown (apply_next_turn rules now false e)

  -- The table after a leave from a game in play.
  unfoldable pub settle_table : List Player → Engine X → Engine X
  settle_table [] e = broadcast EventType.game_ended 0 EndReason.abandoned (
      stop_turn_timer
        (record e { state = record (e.state) { phase = Phase.finished; winner = none } }))
  settle_table (p ∷ ps) e =
      if rules.check_win_condition e.state
      then finish_game rules now none EndReason.win e
      else seats_left ps p e

  -- removePlayerLocked's changes up to the EventPlayerLeft broadcast, for the seat at index i.
  unfoldable pub vacate : ℕ → Player → ℕ → Engine X → Engine X
  vacate pid p i e = broadcast EventType.player_left pid EndReason.unknown (record e {
    state = after_removed rules (move_to_left e.state i p) i;
    missed_turns = delete pid e.missed_turns;
  })

  -- The table is settled while the game is in play.
  unfoldable pub settle_vacated : Engine X → Engine X
  settle_vacated e = if is_playing e.state.phase then settle_table e.state.players e else e

  -- removePlayerLocked for the seat at index i. The leave hook has run.
  unfoldable pub remove_seat : ℕ → ℕ → Engine X → Engine X
  remove_seat pid i e = elim (get_elem? e.state.players i) [
    | none ↦ e
    | some p ↦ settle_vacated (vacate pid p i e)
  ]

  pub remove_seat_found :
      (pid i : ℕ) (e : Engine X) (p : Player)
      → get_elem? e.state.players i ≡ some p
      → remove_seat pid i e ≡ settle_vacated (vacate pid p i e)
  unfolding remove_seat
  remove_seat_found pid i e p h = rw (h, remove_seat)

  unfoldable pub remove_player : ℕ → Engine X → Engine X
  remove_player pid e =
      if is_finished_phase e.state.phase then e else elim (index_of pid e.state.players) [
        | none ↦ e
        | some i ↦ remove_seat pid i (record e { state = on_leave rules e.state pid })
      ]

  -- A removal does nothing, or it takes the seat that it finds.
  pub remove_cases {ℓ} :
      (P : Engine X → Type ℓ) (pid : ℕ) (e : Engine X)
      → P e
      → ((i : ℕ)
          → index_of pid e.state.players ≡ some i
          → is_finished_phase e.state.phase ≡ false
          → P (remove_seat pid i (record e { state = on_leave rules e.state pid })))
      → P (remove_player pid e)
  unfolding remove_player
  remove_cases P pid e nothing taken = elim (Bool-cases (is_finished_phase e.state.phase)) [
    | inl over ↦ simp over nothing
    | inr live ↦ simp live (elim (Option-cases (index_of pid e.state.players)) [
      | inl absent ↦ simp absent nothing
      | inr (i, found) ↦ simp found (taken i found live)
    ])
  ]
