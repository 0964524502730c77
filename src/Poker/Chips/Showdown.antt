-- ===== src/Poker/Chips/Showdown.antt =====
-- A showdown pays the whole pool out (runShowdown).
use terminal_card.Base.{
  ℕ, ◌<◌, ◌≡◌, ◌≢◌, refl, ap, ◌∙◌, inl, inr, true, some, List, [], ◌∷◌, arith, Bool-cases, ◌==◌,
}
use terminal_card.Base.Words.{u_sub}
use terminal_card.Base.GoMap.{GoMap, get_or, get_or-put}
use terminal_card.Game.{Player, contains_id}
use terminal_card.Poker.{State, contributed, credit, take_from_pool}
use terminal_card.Poker.Pots.{top_two, refund_uncalled, pot_winners}
use terminal_card.Poker.Streets.{pay_showdown}
use terminal_card.Poker.Chips.{stake, IsBooked}
use terminal_card.Poker.Chips.Cutting.{HasContender, build_side_pots-IsCut}
use terminal_card.Poker.Chips.Payout.{award_pots-IsPayout}
use terminal_card.Poker.Chips.Refunds.{refund_uncalled-Keeps}

contributed-HasContender :
    (k : ℕ) (live : List Player) (m : GoMap ℕ)
    → contains_id k live ≡ true
    → 0 < get_or 0 k m
    → HasContender 0 live m
contributed-HasContender k live [] h pos = absurd (omega arith)
contributed-HasContender k live ((j, c) ∷ m) h pos = elim (Bool-cases (j == k)) [
  | inl here ↦
      let same : j ≡ k = ground arith in inl (ap (λ z. contains_id z live) same ∙ h, ground arith)
  | inr later ↦ inr (contributed-HasContender k live m h (ground arith))
]

-- The refund touches no contribution but the largest contributor's.
refund_uncalled-other :
    (k : ℕ) (x : State)
    → (top_two 0 0 0 x.total_contributed).0 ≢ k
    → contributed (refund_uncalled x) k ≡ contributed x k
unfolding refund_uncalled credit take_from_pool
refund_uncalled-other k x ne =
    let r = top_two 0 0 0 x.total_contributed in
    elim (Bool-cases (u_sub r.1 r.2 == 0)) [
      | inl called ↦ rw (called, refund_uncalled) refl
      | inr uncalled ↦
          rw (uncalled, refund_uncalled) (get_or-put 0 k r.0 r.2 x.total_contributed ∙ ground arith)
    ]

-- Two live players with chips in: one of them still has them in after the refund.
refund_uncalled-HasContender :
    (i j : ℕ) (live : List Player) (x : State)
    → i ≢ j
    → (contains_id i live ≡ true) × (0 < contributed x i)
    → (contains_id j live ≡ true) × (0 < contributed x j)
    → HasContender 0 live (refund_uncalled x).total_contributed
refund_uncalled-HasContender i j live x ne a b =
    let top_id = (top_two 0 0 0 x.total_contributed).0 in
    elim (Bool-cases (top_id == i)) [
      | inl mine ↦
          let other : top_id ≢ j = ground arith in
          let kept = refund_uncalled-other j x other in
          contributed-HasContender j live (refund_uncalled x).total_contributed b.0 (omega arith)
      | inr not_mine ↦
          let other : top_id ≢ i = ground arith in
          let kept = refund_uncalled-other i x other in
          contributed-HasContender i live (refund_uncalled x).total_contributed a.0 (omega arith)
    ]

-- While the books are right and two different live players have chips in, paying a showdown out
-- ends without a panic: the pool is empty after it, and the table holds the chips it held.
pub pay_showdown_settles :
    (i j : ℕ) (live : List Player) (scores : GoMap ℕ) (x : State)
    → IsBooked x
    → i ≢ j
    → (contains_id i live ≡ true) × (0 < contributed x i)
    → (contains_id j live ≡ true) × (0 < contributed x j)
    → (z : State) × (pay_showdown live scores x ≡ some z) × (stake z ≡ stake x) × (z.main_pool ≡ 0)
unfolding pay_showdown
pay_showdown_settles i j live scores x b ne a c =
    let y = refund_uncalled x in
    let kept = refund_uncalled-Keeps x b in
    let (pots, e, cut) =
      build_side_pots-IsCut y live (omega (arith, kept.booked.pool, kept.booked.fits))
        (refund_uncalled-HasContender i j live x ne a c) in
    let y' : State = record y { pots = pots; hand_complete = true } in
    let (z, f, paid) =
      award_pots-IsPayout scores pots y' cut.winnable (omega (arith, kept.booked.pool, cut.whole))
        kept.booked.fits in
    (
      record z { winners = pot_winners live scores pots [] },
      rw (e, f, pay_showdown) refl,
      paid.same_stake ∙ kept.same_stake,
      omega (arith, paid.pool, kept.booked.pool, cut.whole),
    )
