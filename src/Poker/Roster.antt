-- ===== src/Poker/Roster.antt =====
-- Dealing streets and showing down leave the seats, the leavers and the table's phase to the engine.
pub mod Dealing
pub mod Hooks
use terminal_card.Base.{
  ℕ, zero, suc, ◌+◌, ◌≡◌, refl, ap, sym, ◌∙◌, inl, inr, Bool, true, false, not, Option, none, some,
  List, [], ◌∷◌, ◌==◌, ltb, leb, arith, length, map, Bool-cases, Option-cases, if◌then◌else◌,
  get_elem?,
}
use terminal_card.Base.Int.{ℤ, pos, negsuc}
use terminal_card.Base.GoMap.{GoMap, put}
use terminal_card.Deck.{Pile, Shuffler, draw, draw_n_cards, shuffle_pile, standard_deck, size}
use terminal_card.Deck
use terminal_card.Game.{Player, Phase, Rules}
use terminal_card.Engine.Laws.{ids, KeepsTable}
use terminal_card.Engine.Laws.{SameTable, SameTable-refl, SameTable-trans}
use terminal_card.Poker.{
  State, Table, Error, RoundPhase, chips, contenders, chips_in_play, active_players,
}
use terminal_card.Poker.Betting.{Action}
use terminal_card.Poker.Pots.{refund_contributions}
use terminal_card.Poker.Streets.{
  Outcome, deal_one, then_do, deal_cards, deal_community, deal_street, next_street, run_showdown,
  run_out_board, streets_left, settle_and_advance, pay_showdown, hand_scores, clear_street,
  can_still_bet,
}

-- A step that keeps the table of whatever it is given.
abbrev pub StepKeeps : (Table → State → Outcome) → Type 0
StepKeeps f = (t : Table) (x : State) → SameTable t (f t x).table

then_do-SameTable :
    (t : Table) (o : Outcome) (f : Table → State → Outcome)
    → SameTable t o.table
    → StepKeeps f
    → SameTable t (then_do o f).table
unfolding then_do
then_do-SameTable t o f h k = elim (Option-cases o.error) [
  | inl fine ↦
      rw (fine, then_do) (SameTable-trans t o.table (f o.table o.match).table h (k o.table o.match))
  | inr (e, failed) ↦ rw (failed, then_do) h
]

deal_one-SameTable : (t : Table) (x : State) (keep : Bool) → SameTable t (deal_one t x keep).table
unfolding deal_one
deal_one-SameTable t x keep = elim (Option-cases (draw t.deck).1) [
  | inl dry ↦ rw (dry, deal_one) (SameTable-refl t)
  | inr (c, drawn) ↦
      rw (drawn, deal_one) (record { same_ids = refl; same_left = refl; same_phase = refl })
]

deal_cards-SameTable : (n : ℕ) → StepKeeps (deal_cards n)
unfolding deal_cards
deal_cards-SameTable zero t x = SameTable-refl t
deal_cards-SameTable (suc n) t x =
    then_do-SameTable t (deal_one t x true) (deal_cards n) (deal_one-SameTable t x true)
      (deal_cards-SameTable n)

deal_community-SameTable : (n : ℕ) → StepKeeps (deal_community n)
unfolding deal_community
deal_community-SameTable n t x =
    then_do-SameTable t (deal_one t x false) (deal_cards n) (deal_one-SameTable t x false)
      (deal_cards-SameTable n)

deal_street-SameTable : (next : RoundPhase) (cards : ℕ) → StepKeeps (deal_street next cards)
unfolding deal_street
deal_street-SameTable next cards t x =
    then_do-SameTable t (deal_community cards t x)
      (λ t' x'. record { table = t'; match = record x' { phase = next }; error = none })
      (deal_community-SameTable cards t x) (λ t' x'. SameTable-refl t')

run_showdown-SameTable : StepKeeps run_showdown
unfolding run_showdown
run_showdown-SameTable t x =
    let shown : State = record x { phase = RoundPhase.showdown; reached_showdown = true } in
    let live = contenders t shown in
    elim (Option-cases (pay_showdown live (hand_scores shown live) shown)) [
      | inl stuck ↦ rw (stuck, run_showdown) (SameTable-refl t)
      | inr (y, paid) ↦ rw (paid, run_showdown) (SameTable-refl t)
    ]

run_out_board-SameTable : (n : ℕ) → StepKeeps (run_out_board n)
unfolding run_out_board
run_out_board-SameTable zero t x = run_showdown-SameTable t x
run_out_board-SameTable (suc n) t x = elim (Option-cases (next_street x.phase)) [
  | inl last ↦ rw (last, run_out_board) (run_showdown-SameTable t x)
  | inr ((next, cards), more) ↦
      rw (more, run_out_board)
        (then_do-SameTable t (deal_street next cards t x) (run_out_board n)
          (deal_street-SameTable next cards t x) (run_out_board-SameTable n))
]

pub settle_and_advance-SameTable : StepKeeps settle_and_advance
unfolding settle_and_advance
settle_and_advance-SameTable t x =
    let y : State = record (clear_street t.players x) {
      current_bet = 0;
      min_raise = x.big_blind;
    } in
    elim (Option-cases (next_street y.phase)) [
      | inl last ↦ rw (last, settle_and_advance) (run_showdown-SameTable t y)
      | inr ((next, cards), more) ↦
          rw (more, settle_and_advance)
            (then_do-SameTable t (deal_street next cards t y) _
              (deal_street-SameTable next cards t y)
              (λ t' z. elim (Bool-cases (ltb (can_still_bet y (active_players y t.players)) 2)) [
                | inl few ↦ rw few (run_out_board-SameTable streets_left t' z)
                | inr enough ↦ rw enough (SameTable-refl t')
              ]))
    ]
