-- ===== src/Poker/Absent.antt =====
-- An absent player's turn is played without risking chips (TimeoutAction).
use terminal_card.Base.{
  ◌≡◌, refl, ap, ◌∙◌, inl, inr, true, false, none, some, ◌==◌, ◌||◌, arith, Bool-cases,
  if◌then◌else◌, ltb,
}
use terminal_card.Game.{Player, seat}
use terminal_card.Poker.{State, Table, is_folded, is_all_in, to_call, contenders}
use terminal_card.Poker.Betting.{Action, apply_move, set_acted, validate_move}
use terminal_card.Poker.Match.{validate_action, validate_in, validate_betting, is_showdown}
use terminal_card.Poker.Leaving.{timeout_action, betting_timeout}

-- The hand is open, and the player on turn may act.
pub record IsOnTurn (t : Table) (x : State) (p : Player) : Type 0 where
  pub own : t.extra ≡ some x
  pub in_hand : x.hand_complete ≡ false
  pub betting : is_showdown x.phase ≡ false
  pub on_turn : seat t.current_turn t.players ≡ some p
  pub live : (is_folded x p.id || is_all_in x p.id) ≡ false

-- What an absent player's move does: it is played, it is legal, and it moves no chip.
pub record IsSafe (t : Table) (x : State) (p : Player) (a : Action) : Type 0 where
  pub played : timeout_action t ≡ some a
  pub legal : validate_action t a ≡ none
  pub same_chips : (apply_move t.players p.id a x).player_chips ≡ x.player_chips
  pub same_pool : (apply_move t.players p.id a x).main_pool ≡ x.main_pool

timeout_action-open :
    (t : Table) (x : State) (p : Player)
    → IsOnTurn t x p
    → timeout_action t ≡ some (if to_call x p.id == 0 then Action.check else Action.fold)
unfolding timeout_action betting_timeout to_call
timeout_action-open t x p h = elim (Bool-cases (to_call x p.id == 0)) [
  | inl free ↦ rw (h.own, timeout_action, h.in_hand, h.on_turn, betting_timeout, free) refl
  | inr owed ↦ rw (h.own, timeout_action, h.in_hand, h.on_turn, betting_timeout, owed) refl
]

validate_action-open :
    (t : Table) (x : State) (p : Player) (a : Action)
    → IsOnTurn t x p
    → validate_in t (some x) a ≡ validate_betting t x a
    → validate_action t a ≡ validate_move t x p.id a
unfolding validate_action validate_betting validate_move contenders
validate_action-open t x p a h e =
    ap (λ o. validate_in t o a) h.own
    ∙ e
    ∙ rw (h.in_hand, h.betting, h.on_turn, h.live, validate_betting) refl

timeout_action-check :
    (t : Table) (x : State) (p : Player)
    → IsOnTurn t x p
    → (to_call x p.id == 0) ≡ true
    → IsSafe t x p Action.check
unfolding validate_in validate_move apply_move set_acted
timeout_action-check t x p h free =
    let nothing : ltb 0 (to_call x p.id) ≡ false = ground arith in
    record {
      played = timeout_action-open t x p h ∙ rw free refl;
      legal = validate_action-open t x p Action.check h refl ∙ rw nothing refl;
      same_chips = refl;
      same_pool = refl;
    }

timeout_action-fold :
    (t : Table) (x : State) (p : Player)
    → IsOnTurn t x p
    → (to_call x p.id == 0) ≡ false
    → IsSafe t x p Action.fold
unfolding validate_in validate_move apply_move set_acted
timeout_action-fold t x p h owed = record {
  played = timeout_action-open t x p h ∙ rw owed refl;
  legal = validate_action-open t x p Action.fold h refl;
  same_chips = refl;
  same_pool = refl;
}

-- While a player who may act is on turn in an open hand, TimeoutAction has a move for them, the
-- rules accept it, and it moves no chip.
pub timeout_action-IsSafe :
    (t : Table) (x : State) (p : Player) → IsOnTurn t x p → (a : Action) × IsSafe t x p a
timeout_action-IsSafe t x p h = elim (Bool-cases (to_call x p.id == 0)) [
  | inl free ↦ (Action.check, timeout_action-check t x p h free)
  | inr owed ↦ (Action.fold, timeout_action-fold t x p h owed)
]
