-- ===== src/Poker/Streets.antt =====
-- internal/game/poker/streets.go: the betting rounds, the board and the showdown.
use terminal_card.Base.{
  ℕ, zero, suc, ◌+◌, ◌%◌, Bool, true, false, not, ◌&&◌, ◌||◌, Option, none, some, List, [], ◌∷◌,
  ◌++◌, ltb, if◌then◌else◌, get_elem?, length,
}
use terminal_card.Base.Int.{ℤ, pos}
use terminal_card.Base.GoMap.{GoMap, put}
use terminal_card.Deck.{draw}
use terminal_card.Game.{Player}
use terminal_card.Poker.{
  State, Table, Error, RoundPhase, chips, bet, is_all_in, has_acted, cannot_act, active_players,
  contenders,
}
use terminal_card.Poker.Pots.{build_side_pots, refund_uncalled, award_pots, pot_winners}
use terminal_card.Poker.Evaluator.{evaluate_hand}

unfoldable pub betting_round_complete : State → List Player → Bool
unfolding cannot_act
betting_round_complete x [] = true
betting_round_complete x (p ∷ ps) =
    let rest = betting_round_complete x ps in
    if cannot_act x p.id
    then rest
    else if not (has_acted x p.id)
    then false
    else if ltb (bet x p.id) x.current_bet
    then false
    else rest

-- The loop of nextSeat with `k` seats still to look at, the first of them `i` behind `from`.
unfoldable pub next_seat_from : ℕ → ℕ → ℕ → ℕ → (ℕ → Bool) → Option ℕ
next_seat_from zero i from n ok = none
next_seat_from (suc k) i from n ok =
    let rest = next_seat_from k (i + 1) from n ok in
    let idx = (from + i) % n in if ok idx then some idx else rest

-- None for -1.
unfoldable pub next_seat : ℕ → ℕ → (ℕ → Bool) → Option ℕ
unfolding next_seat_from
next_seat from n ok = next_seat_from n 1 from n ok

-- A test on the id of a seat. Seats out of range, at which Go panics, are never asked for.
unfoldable pub test_seat : List Player → (ℕ → Bool) → ℕ → Bool
test_seat ps test idx = elim (get_elem? ps idx) [ none ↦ false | some p ↦ test p.id ]

unfoldable pub owes_action : State → ℕ → Bool
unfolding cannot_act
owes_action x pid =
    if cannot_act x pid then false else not (has_acted x pid) || ltb (bet x pid) x.current_bet

unfoldable pub next_to_act : List Player → State → ℕ → Option ℕ
unfolding next_seat test_seat owes_action
next_to_act ps x from = next_seat from (length ps) (test_seat ps (owes_action x))

-- The seat, or the present turn where nobody can act.
unfoldable pub first_to_act_postflop : Table → State → ℤ
unfolding next_seat test_seat cannot_act
first_to_act_postflop t x =
    elim (next_seat x.dealer_index (length t.players)
      (test_seat t.players (λ pid. not (cannot_act x pid)))) [
        | none ↦ t.current_turn
        | some idx ↦ pos idx
      ]

-- What a step of the match makes of the table: the table, the match and an error if there was one.
pub record Outcome : Type 0 where
  pub table : Table
  pub match : State
  pub error : Option Error

unfoldable pub deal_one : Table → State → Bool → Outcome
deal_one t x keep =
    let (left, card) = draw t.deck in
    elim card [
      | none ↦ record { table = t; match = x; error = some Error.deck_empty }
      | some c ↦ record {
        table = record t { deck = left };
        match = if keep then record x { table = x.table ++ c ∷ [] } else x;
        error = none;
      }
    ]

-- An outcome is passed on to the next step unless it is an error.
unfoldable pub then_do : Outcome → (Table → State → Outcome) → Outcome
then_do o f = elim o.error [ none ↦ f o.table o.match | some e ↦ o ]

unfoldable pub deal_cards : ℕ → Table → State → Outcome
deal_cards zero t x = record { table = t; match = x; error = none }
deal_cards (suc n) t x = then_do (deal_one t x true) (deal_cards n)

-- A burn and n cards.
unfoldable pub deal_community : ℕ → Table → State → Outcome
deal_community n t x = then_do (deal_one t x false) (deal_cards n)

-- The next street and its cards; none once there is no street left to deal.
abbrev pub next_street : RoundPhase → Option (RoundPhase × ℕ)
next_street RoundPhase.pre_flop = some (RoundPhase.flop, 3)
next_street RoundPhase.flop = some (RoundPhase.turn, 1)
next_street RoundPhase.turn = some (RoundPhase.river, 1)
next_street _ = none

unfoldable pub deal_street : RoundPhase → ℕ → Table → State → Outcome
deal_street next cards t x =
    then_do (deal_community cards t x)
      (λ t' x'. record { table = t'; match = record x' { phase = next }; error = none })

unfoldable pub hand_scores : State → List Player → GoMap ℕ
hand_scores x [] = []
hand_scores x (p ∷ ps) = put p.id (evaluate_hand (p.cards ++ x.table)) (hand_scores x ps)

-- runShowdown from the refund on, with the contenders and their scores.
unfoldable pub pay_showdown : List Player → GoMap ℕ → State → Option State
pay_showdown live scores x =
    let y = refund_uncalled x in
    elim (build_side_pots y live) [
      | none ↦ none
      | some pots ↦ elim (award_pots scores pots (record y { pots = pots; hand_complete = true })) [
        | none ↦ none
        | some z ↦ some (record z { winners = pot_winners live scores pots [] })
      ]
    ]

unfoldable pub run_showdown : Table → State → Outcome
run_showdown t x =
    let shown = record x { phase = RoundPhase.showdown; reached_showdown = true } in
    let live = contenders t shown in
    elim (pay_showdown live (hand_scores shown live) shown) [
      | none ↦ record { table = t; match = shown; error = some Error.panic }
      | some y ↦ record { table = t; match = y; error = none }
    ]

-- runOutBoard: the streets that are left, by their number.
unfoldable pub run_out_board : ℕ → Table → State → Outcome
run_out_board zero t x = run_showdown t x
run_out_board (suc n) t x = elim (next_street x.phase) [
  | none ↦ run_showdown t x
  | some (next, cards) ↦ then_do (deal_street next cards t x) (run_out_board n)
]

unfoldable pub streets_left : ℕ
streets_left = 3

-- The loop of settleAndAdvance over the seats.
unfoldable pub clear_street : List Player → State → State
clear_street [] x = x
clear_street (p ∷ ps) x = clear_street ps (record x {
  player_bets = put p.id 0 x.player_bets;
  acted_this_round = put p.id false x.acted_this_round;
})

unfoldable pub can_still_bet : State → List Player → ℕ
can_still_bet x [] = 0
can_still_bet x (p ∷ ps) =
    (if not (is_all_in x p.id) && ltb 0 (chips x p.id) then 1 else 0) + can_still_bet x ps

unfoldable pub settle_and_advance : Table → State → Outcome
settle_and_advance t x =
    let y = record (clear_street t.players x) { current_bet = 0; min_raise = x.big_blind } in
    elim (next_street y.phase) [
      | none ↦ run_showdown t y
      | some (next, cards) ↦ then_do (deal_street next cards t y) (λ t' z.
          if ltb (can_still_bet y (active_players y t.players)) 2
          then run_out_board streets_left t' z
          else record { table = t'; match = z; error = none })
    ]
