-- ===== src/Poker/Chips/Payout.antt =====
-- Paying the pots out moves chips from the pool to the stacks and loses none.
use terminal_card.Base.{
  ℕ, ◌+◌, ◌-◌, ◌*◌, ◌/◌, ◌%◌, ◌<◌, ◌≤◌, ◌≡◌, refl, ap, subst, ◌∙◌, inl, inr, none, some, List, [],
  ◌∷◌, ◌++◌, arith, length, length-append, min, Bool-cases, if◌then◌else◌, ltb, ◌==◌,
}
use native.Mathlib.Nat.{div-add-mod, mod-lt}
use terminal_card.Base.Words.{u64_mod}
use terminal_card.Base.GoMap.{GoMap, get_or, total}
use terminal_card.Poker.{State, Pot, credit, take_from_pool}
use terminal_card.Poker.Pots.{
  sorted, give_share, split_from, split_evenly, best_hands, pay_pot, award_pots,
}
use terminal_card.Poker.Chips.{stake, chips-credit, pool-take_from_pool}
use terminal_card.Poker.Chips.Cutting.{pots_total, AllWinnable, length-sorted}

-- The stacks of `y` hold `amount` more than those of `x`, and the pool is the same.
pub record IsPaid (amount : ℕ) (x y : State) : Type 0 where
  pub stacks : total y.player_chips ≡ total x.player_chips + amount
  pub same_pool : y.main_pool ≡ x.main_pool

pub credit-IsPaid :
    (pid amount : ℕ) (x : State)
    → total x.player_chips + amount < u64_mod
    → IsPaid amount x (credit pid amount x)
credit-IsPaid pid amount x h = record { stacks = chips-credit pid amount x h; same_pool = pool }
  where
    pool : (credit pid amount x).main_pool ≡ x.main_pool
    pool = unfold credit in refl

give_share-IsPaid :
    (i share rem k : ℕ) (x : State)
    → total x.player_chips + (share + (if ltb i rem then 1 else 0)) < u64_mod
    → IsPaid (share + (if ltb i rem then 1 else 0)) x (give_share i share rem k x)
unfolding give_share
give_share-IsPaid i share rem k x h =
    let first = credit-IsPaid k share x (omega arith) in
    elim (Bool-cases (ltb i rem)) [
      | inl odd ↦
          let h' : total x.player_chips + (share + 1) < u64_mod = ground arith in
          let second = credit-IsPaid k 1 (credit k share x) (omega arith) in
          rw odd (record { stacks = omega arith; same_pool = second.same_pool ∙ first.same_pool })
      | inr even ↦ rw even (record { stacks = omega arith; same_pool = first.same_pool })
    ]

-- Player `i` of the split gets the share, and one more among the first `rem`.
extra_chips : ℕ → ℕ → ℕ → ℕ
extra_chips i rem n = min rem (i + n) - min rem i

split_from-IsPaid :
    (i share rem : ℕ) (ks : List ℕ) (x : State)
    → total x.player_chips + (length ks * share + extra_chips i rem (length ks)) < u64_mod
    → IsPaid (length ks * share + extra_chips i rem (length ks)) x (split_from i share rem ks x)
unfolding split_from extra_chips
split_from-IsPaid i share rem [] x h = record { stacks = omega arith; same_pool = refl }
split_from-IsPaid i share rem (k ∷ ks) x h =
    let y = give_share i share rem k x in
    let first = give_share-IsPaid i share rem k x (ground arith) in
    let rest = split_from-IsPaid (i + 1) share rem ks y (ground arith) in
    record { stacks = ground arith; same_pool = rest.same_pool ∙ first.same_pool }

odd_chips : (amount n : ℕ) → 0 < n → extra_chips 0 (amount % n) n ≡ amount % n
unfolding extra_chips
odd_chips amount n h = omega (arith, mod-lt amount h)

-- The whole amount is handed out, odd chips included.
split_evenly-IsPaid :
    (ids : List ℕ) (amount : ℕ) (x : State)
    → 0 < length ids
    → total x.player_chips + amount < u64_mod
    → (y : State) × (split_evenly ids amount x ≡ some y) × IsPaid amount x y
unfolding split_evenly
split_evenly-IsPaid [] amount x some_id h = absurd (omega arith)
split_evenly-IsPaid (k ∷ ks) amount x some_id h =
    let n = length (k ∷ ks) in
    let whole : n * (amount / n) + extra_chips 0 (amount % n) n ≡ amount =
      ap (λ t. n * (amount / n) + t) (odd_chips amount n (omega arith)) ∙ div-add-mod amount n in
    (
      split_from 0 (amount / n) (amount % n) (k ∷ ks) x,
      refl,
      subst (λ a. IsPaid a x (split_from 0 (amount / n) (amount % n) (k ∷ ks) x)) whole
          (split_from-IsPaid 0 (amount / n) (amount % n) (k ∷ ks) x (omega arith)),
    )

best_hands-grows :
    (scores : GoMap ℕ) (b : ℕ) (winners ks : List ℕ)
    → 0 < length winners
    → 0 < length (best_hands scores (some b) winners ks)
unfolding best_hands
best_hands-grows scores b winners [] h = h
best_hands-grows scores b winners (k ∷ ks) h =
    let score = get_or 0 k scores in
    let kept = length-append {0} winners (k ∷ []) in
    elim (Bool-cases (ltb b score)) [
      | inl better ↦
          rw (better, best_hands) (best_hands-grows scores score (k ∷ []) ks (omega arith))
      | inr not_better ↦ elim (Bool-cases (score == b)) [
        | inl level ↦
            rw (not_better, level, best_hands)
              (best_hands-grows scores b (winners ++ k ∷ []) ks (omega arith))
        | inr worse ↦ rw (not_better, worse, best_hands) (best_hands-grows scores b winners ks h)
      ]
    ]

best_hands-some :
    (scores : GoMap ℕ) (ks : List ℕ) → 0 < length ks → 0 < length (best_hands scores none [] ks)
unfolding best_hands
best_hands-some scores [] h = absurd (omega arith)
best_hands-some scores (k ∷ ks) h =
    best_hands-grows scores (get_or 0 k scores) (k ∷ []) ks (omega arith)

-- `paid` chips left the pool for the stacks.
pub record IsPayout (paid : ℕ) (x y : State) : Type 0 where
  pub same_stake : stake y ≡ stake x
  pub pool : y.main_pool + paid ≡ x.main_pool

pub paid_out :
    (amount : ℕ) (x y : State)
    → IsPaid amount x y
    → amount ≤ x.main_pool
    → stake x < u64_mod
    → IsPayout amount x (take_from_pool amount y)
paid_out amount x y paid h fits =
    let (pool, same) = pool-take_from_pool amount y (omega arith) (omega arith) in
    let stacks = ap total same in record { same_stake = omega arith; pool = omega arith }

pay_pot-IsPayout :
    (scores : GoMap ℕ) (pot : Pot) (x : State)
    → 0 < length pot.eligible
    → pot.amount ≤ x.main_pool
    → stake x < u64_mod
    → (y : State) × (pay_pot scores pot x ≡ some y) × IsPayout pot.amount x y
unfolding pay_pot
pay_pot-IsPayout scores pot x w h fits =
    let ids = sorted (best_hands scores none [] pot.eligible) in
    let (y, e, paid) =
      split_evenly-IsPaid ids pot.amount x
        (omega (
          arith,
          length-sorted (best_hands scores none [] pot.eligible),
          best_hands-some scores pot.eligible w,
        ))
        (omega arith) in
    (take_from_pool pot.amount y, rw (e, pay_pot) refl, paid_out pot.amount x y paid h fits)

-- While the pool covers the pots, each pot has an eligible player and the chips fit in a uint,
-- awarding the pots succeeds, takes exactly what they hold out of the pool and keeps the chips on
-- the table.
pub award_pots-IsPayout :
    (scores : GoMap ℕ) (pots : List Pot) (x : State)
    → AllWinnable pots
    → pots_total pots ≤ x.main_pool
    → stake x < u64_mod
    → (y : State) × (award_pots scores pots x ≡ some y) × IsPayout (pots_total pots) x y
unfolding award_pots pots_total
award_pots-IsPayout scores [] x w h fits =
    (x, refl, record { same_stake = refl; pool = omega arith })
award_pots-IsPayout scores (pot ∷ pots) x w h fits =
    let (y, e, first) = pay_pot-IsPayout scores pot x w.0 (omega arith) fits in
    let (z, f, rest) = award_pots-IsPayout scores pots y w.1 (omega arith) (omega arith) in
    (z, rw (e, award_pots) f, record { same_stake = omega arith; pool = omega arith })
