-- ===== src/Poker/Betting.antt =====
-- internal/game/poker/rules.go: a betting move is validated and applied.
use terminal_card.Base.{
  ℕ, true, false, not, ◌&&◌, ◌||◌, Option, none, some, List, [], ◌∷◌, ◌==◌, ltb, leb, if◌then◌else◌,
  min, max,
}
use terminal_card.Base.Words.{u_add, u_sub}
use terminal_card.Base.GoMap.{put}
use terminal_card.Game.{Player}
use terminal_card.Poker.{
  State, Table, Error, chips, bet, contributed, is_folded, is_all_in, has_acted, to_call,
  contenders,
}

pub data Action : Type 0 where
  fold check call all_in next_hand : Action
  raise_to : ℕ → Action
  foreign : Action  -- an action of another game

-- What postBlind and commitTo share: chips move from the stack to the street bet and the pool.
unfoldable pub commit : ℕ → ℕ → State → State
commit pid pay x =
    let rest = u_sub (chips x pid) pay in
    record x {
      players_all_in = if rest == 0 then put pid true x.players_all_in else x.players_all_in;
      player_chips = put pid rest x.player_chips;
      player_bets = put pid (u_add (bet x pid) pay) x.player_bets;
      total_contributed = put pid (u_add (contributed x pid) pay) x.total_contributed;
      main_pool = u_add x.main_pool pay;
    }

unfoldable pub post_blind : ℕ → ℕ → State → State
post_blind pid amount x = commit pid (min amount (chips x pid)) x

unfoldable pub commit_to : ℕ → ℕ → State → State
commit_to pid street_total x =
    if ltb street_total (bet x pid)
    then x
    else commit pid (min (u_sub street_total (bet x pid)) (chips x pid)) x

unfoldable pub set_acted : ℕ → State → State
set_acted pid x = record x { acted_this_round = put pid true x.acted_this_round }

unfoldable pub reset_acted_except : ℕ → List Player → State → State
reset_acted_except except [] x = x
reset_acted_except except (p ∷ ps) x = reset_acted_except except ps (
    if (p.id == except) || is_folded x p.id || is_all_in x p.id
    then x
    else record x { acted_this_round = put p.id false x.acted_this_round })

unfoldable pub apply_bet_increase : List Player → ℕ → ℕ → State → State
apply_bet_increase seats raiser new_bet x =
    if leb new_bet x.current_bet
    then x
    else let raise_size = u_sub new_bet x.current_bet in
      if leb x.min_raise raise_size
      then reset_acted_except raiser seats
          (record x { current_bet = new_bet; min_raise = raise_size })
      else record x { current_bet = new_bet }

unfoldable pub check_betting_reopened : State → ℕ → Option Error
check_betting_reopened x pid = if has_acted x pid then some Error.not_reopened else none

-- The loop of largestCallableBet.
unfoldable pub largest_bet_of : State → ℕ → List Player → ℕ → ℕ
largest_bet_of x pid [] best = best
largest_bet_of x pid (o ∷ os) best =
    largest_bet_of x pid os
      (if o.id == pid then best else max best (u_add (bet x o.id) (chips x o.id)))

unfoldable pub largest_callable_bet : Table → State → ℕ → ℕ
unfolding largest_bet_of
largest_callable_bet t x pid = largest_bet_of x pid (contenders t x) 0

unfoldable pub validate_raise_size : State → ℕ → ℕ → Option Error
validate_raise_size x pid amount =
    let additional = u_sub amount (bet x pid) in
    if ltb (chips x pid) additional
    then some Error.not_enough_chips
    else if ltb additional (chips x pid) && ltb (u_sub amount x.current_bet) x.min_raise
    then some Error.below_min_raise
    else none

unfoldable pub validate_raise_to : Table → State → ℕ → ℕ → Option Error
unfolding check_betting_reopened largest_callable_bet validate_raise_size
validate_raise_to t x pid amount =
    if has_acted x pid
    then check_betting_reopened x pid
    else if leb amount x.current_bet
    then some Error.raise_too_low
    else if ltb (largest_callable_bet t x pid) amount
    then some Error.raise_uncallable
    else validate_raise_size x pid amount

unfoldable pub validate_next_hand : State → Option Error
validate_next_hand x =
    if not x.hand_complete
    then some Error.still_played
    else if x.match_complete
    then some Error.match_over
    else none

-- The switch of ValidateAction, for the player on turn.
unfoldable pub validate_move : Table → State → ℕ → Action → Option Error
unfolding validate_raise_to check_betting_reopened to_call
validate_move t x pid Action.fold = none
validate_move t x pid Action.check = if ltb 0 (to_call x pid) then some Error.must_call else none
validate_move t x pid Action.call = if to_call x pid == 0 then some Error.nothing_to_call else none
validate_move t x pid (Action.raise_to amount) = validate_raise_to t x pid amount
validate_move t x pid Action.all_in =
    if chips x pid == 0
    then some Error.no_chips
    else if ltb x.current_bet (u_add (bet x pid) (chips x pid))
    then check_betting_reopened x pid
    else none
validate_move t x pid _ = some Error.not_allowed

-- The switch of ApplyAction.
unfoldable pub apply_move : List Player → ℕ → Action → State → State
apply_move seats pid Action.fold x = set_acted pid (record x { folded = put pid true x.folded })
apply_move seats pid Action.check x = set_acted pid x
apply_move seats pid Action.call x = set_acted pid (commit_to pid x.current_bet x)
apply_move seats pid (Action.raise_to amount) x =
    let y = commit_to pid amount x in set_acted pid (apply_bet_increase seats pid (bet y pid) y)
apply_move seats pid Action.all_in x =
    let new_bet = u_add (bet x pid) (chips x pid) in
    let y = commit_to pid new_bet x in
    set_acted pid
      (if ltb x.current_bet new_bet then apply_bet_increase seats pid (bet y pid) y else y)
apply_move seats pid Action.next_hand x = x
apply_move seats pid Action.foreign x = x
