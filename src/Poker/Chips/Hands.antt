-- ===== src/Poker/Chips/Hands.antt =====
-- What follows a betting action conserves the chips: the hand goes on, is won, is shown down or is
-- unwound (afterBettingAction).
use terminal_card.Base.{
  ℕ, ◌≡◌, refl, ◌∙◌, ◌⊎◌, inl, inr, true, some, List, [], ◌∷◌, Bool-cases, Option-cases, ltb, leb,
  ◌||◌,
}
use terminal_card.Base.GoMap.{put, contains_key}
use terminal_card.Game.{Player}
use terminal_card.Poker.{State, Table, RoundPhase, chips, contenders}
use terminal_card.Poker.Pots.{award_uncontested}
use terminal_card.Poker.Streets.{Outcome, settle_and_advance}
use terminal_card.Poker.Hands.{finish_hand, record_bustouts, funded_seats}
use terminal_card.Poker.Match.{
  win_uncontested, sole, close_round, next_in_round, after_betting_action,
}
use terminal_card.Poker.Chips.{stake, IsBooked}
use terminal_card.Poker.Chips.Refunds.{award_uncontested-stake, refund_contributions-stake}
use terminal_card.Poker.Chips.Rounds.{IsContested, IsSettled, settle_and_advance-IsSettled}

record_bustouts-stake : (ps : List Player) (x : State) → stake (record_bustouts ps x) ≡ stake x
unfolding record_bustouts
record_bustouts-stake [] x = refl
record_bustouts-stake (p ∷ ps) x =
    let y : State = record x { busted_at_hand = put p.id x.hand_number x.busted_at_hand } in
    elim (Bool-cases (ltb 0 (chips x p.id) || contains_key p.id x.busted_at_hand)) [
      | inl kept ↦ rw (kept, record_bustouts) (record_bustouts-stake ps x)
      | inr broke ↦ rw (broke, record_bustouts) (record_bustouts-stake ps y)
    ]

finish_hand-stake : (t : Table) (x : State) → stake (finish_hand t x).match ≡ stake x
unfolding finish_hand
finish_hand-stake t x =
    let shown : State = record x { hand_complete = true; phase = RoundPhase.showdown } in
    let y = record_bustouts t.players shown in
    let same = record_bustouts-stake t.players shown in
    elim (Bool-cases (leb y.hands_total y.hand_number || leb (funded_seats t.players y) 1)) [
      | inl over ↦ rw (over, finish_hand) same
      | inr more ↦ rw (more, finish_hand) same
    ]

close_round-stake : (n : ℕ) (o : Outcome) → IsSettled n o → stake (close_round o).match ≡ n
unfolding close_round finish_hand
close_round-stake n o h = elim (Option-cases o.error) [
  | inr (e, failed) ↦
      rw (failed, close_round)
        (elim h.booked [
          | inl fine ↦ absurd (cc)
          | inr books ↦ (refund_contributions-stake o.match books).0 ∙ h.holds
        ])
  | inl fine ↦ elim (Bool-cases o.match.hand_complete) [
    | inl over ↦ rw (fine, over, close_round) (finish_hand-stake o.table o.match ∙ h.holds)
    | inr still ↦ rw (fine, still, close_round) h.holds
  ]
]

-- While the books are right, and one player alone contests the pot or two with chips in do, what
-- follows a betting action leaves the table with the chips it held.
pub after_betting_action-stake :
    (i j : ℕ) (t : Table) (x : State)
    → IsBooked x
    → ((p : Player) × (sole (contenders t x) ≡ some p)) ⊎ IsContested i j (stake x) t x
    → stake (after_betting_action t x).match ≡ stake x
unfolding after_betting_action sole contenders win_uncontested
after_betting_action-stake i j t x b h = elim (Bool-cases x.hand_complete) [
  | inl over ↦ rw (over, after_betting_action) refl
  | inr still ↦ elim (Option-cases (sole (contenders t x))) [
    | inr (p, alone) ↦
        rw (still, alone, after_betting_action)
          (finish_hand-stake t (record (award_uncontested p x) { winners = p ∷ [] })
            ∙ (award_uncontested-stake p x b).0)
    | inl several ↦ elim (Option-cases (next_in_round t x)) [
      | inr (next, owes) ↦ rw (still, several, owes, after_betting_action) refl
      | inl done ↦
          rw (still, several, done, after_betting_action)
            (elim h [
              | inl (p, alone) ↦ absurd (cc)
              | inr contested ↦
                  close_round-stake (stake x) (settle_and_advance t x)
                    (settle_and_advance-IsSettled i j (stake x) t x contested)
            ])
    ]
  ]
]
