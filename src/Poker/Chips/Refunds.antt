-- ===== src/Poker/Chips/Refunds.antt =====
-- Chips that go back to those who put them in.
use terminal_card.Base.{
  ℕ, ◌+◌, ◌<◌, ◌≤◌, ◌≡◌, refl, sym, subst, ◌∙◌, ◌⊎◌, inl, inr, true, false, [], ◌∷◌, arith,
  Bool-cases, ltb, leb, ◌==◌, ◌||◌,
}
use terminal_card.Base.Words.{u64_mod, u_sub, u_sub_exact}
use terminal_card.Base.GoMap.{
  GoMap, get_or, put, contains_key, total, total-put, get_or-le-total, IsDistinct, put-IsDistinct,
}
use terminal_card.Game.{Player}
use terminal_card.Poker.{State, contributed, credit, take_from_pool}
use terminal_card.Poker.Pots.{
  return_unmatched, award_uncontested, return_all, refund_contributions, refund_uncalled, top_two,
}
use terminal_card.Poker.Chips.{stake, IsBooked}
use terminal_card.Poker.Chips.Moves.{Keeps, Keeps-refl}
use terminal_card.Poker.Chips.Payout.{IsPaid, credit-IsPaid, paid_out}

-- Handing every contribution back empties the pool into the stacks.
return_all-IsPaid :
    (m : GoMap ℕ) (x : State)
    → total x.player_chips + total m < u64_mod
    → IsPaid (total m) x (return_all m x)
unfolding return_all total
return_all-IsPaid [] x h = record { stacks = omega arith; same_pool = refl }
return_all-IsPaid ((k, c) ∷ m) x h =
    let first = credit-IsPaid k c x (omega arith) in
    let rest = return_all-IsPaid m (credit k c x) (omega arith) in
    record { stacks = omega arith; same_pool = rest.same_pool ∙ first.same_pool }

-- From right books, unwinding a hand empties the pool, and the table holds the chips it held.
pub refund_contributions-stake :
    (x : State)
    → IsBooked x
    → (stake (refund_contributions x) ≡ stake x) × ((refund_contributions x).main_pool ≡ 0)
unfolding refund_contributions
refund_contributions-stake x b =
    let paid = return_all-IsPaid x.total_contributed x (omega arith) in (omega arith, refl)

-- What the winner did not match goes back, and the pool covers it.
return_unmatched-IsPayout :
    (winner matched : ℕ) (m : GoMap ℕ) (x : State)
    → total m ≤ x.main_pool
    → stake x < u64_mod
    → stake (return_unmatched winner matched m x) ≡ stake x
unfolding return_unmatched total
return_unmatched-IsPayout winner matched [] x h fits = refl
return_unmatched-IsPayout winner matched ((k, c) ∷ m) x h fits =
    elim (Bool-cases ((k == winner) || leb c matched)) [
      | inl kept ↦
          rw (kept, return_unmatched)
            (return_unmatched-IsPayout winner matched m x (omega arith) fits)
      | inr back ↦
          let over : matched < c = ground arith in
          let exact = u_sub_exact c matched (omega arith) (omega arith) in
          let uncalled = u_sub c matched in
          let y = take_from_pool uncalled (credit k uncalled x) in
          let out =
            paid_out uncalled x (credit k uncalled x) (credit-IsPaid k uncalled x (omega arith))
              (omega arith) fits in
          rw (back, return_unmatched)
            (return_unmatched-IsPayout winner matched m y (omega arith) (omega arith)
              ∙ out.same_stake)
    ]

-- From right books, awarding the hand to the last live player empties the pool, and the table
-- holds the chips it held.
pub award_uncontested-stake :
    (winner : Player) (x : State)
    → IsBooked x
    → (stake (award_uncontested winner x) ≡ stake x) × ((award_uncontested winner x).main_pool ≡ 0)
unfolding award_uncontested
award_uncontested-stake winner x b =
    let y = return_unmatched winner.id (contributed x winner.id) x.total_contributed x in
    let same =
      return_unmatched-IsPayout winner.id (contributed x winner.id) x.total_contributed x
        (omega arith) b.fits in
    let paid = credit-IsPaid winner.id y.main_pool y (omega arith) in (omega arith, refl)

-- Where the scan of a map that went on from `top_id` and `top` ends.
record IsTop (top_id top : ℕ) (m : GoMap ℕ) (r : ℕ × ℕ × ℕ) : Type 0 where
  found : ((r.0 ≡ top_id) × (r.1 ≡ top)) ⊎ ((contains_key r.0 m ≡ true) × (get_or 0 r.0 m ≡ r.1))
  ordered : r.2 ≤ r.1

-- An entry of the tail is an entry of the map.
get_or-later :
    (j k c v : ℕ) (m : GoMap ℕ)
    → contains_key k m ≡ false
    → (contains_key j m ≡ true) × (get_or 0 j m ≡ v)
    → (contains_key j ((k, c) ∷ m) ≡ true) × (get_or 0 j ((k, c) ∷ m) ≡ v)
get_or-later j k c v m h (held, e) = elim (Bool-cases (k == j)) [
  | inl here ↦
      let same : k ≡ j = ground arith in
      let gone : contains_key j m ≡ false = subst (λ z. contains_key z m ≡ false) same h in
      absurd (ground arith)
  | inr other ↦ rw other (held, e)
]

IsTop-moved :
    (top_id top k c : ℕ) (m : GoMap ℕ) (r : ℕ × ℕ × ℕ)
    → contains_key k m ≡ false
    → IsTop k c m r
    → IsTop top_id top ((k, c) ∷ m) r
IsTop-moved top_id top k c m r h t = record {
  found = elim t.found [
    | inl (e, f) ↦ let here : (k == r.0) ≡ true = ground arith in inr (rw here (refl, sym f))
    | inr later ↦ inr (get_or-later r.0 k c r.1 m h later)
  ];
  ordered = t.ordered;
}

IsTop-kept :
    (top_id top k c : ℕ) (m : GoMap ℕ) (r : ℕ × ℕ × ℕ)
    → contains_key k m ≡ false
    → IsTop top_id top m r
    → IsTop top_id top ((k, c) ∷ m) r
IsTop-kept top_id top k c m r h t = record {
  found = elim t.found [
    | inl same ↦ inl same
    | inr later ↦ inr (get_or-later r.0 k c r.1 m h later)
  ];
  ordered = t.ordered;
}

top_two-IsTop :
    (top_id top second : ℕ) (m : GoMap ℕ)
    → IsDistinct m
    → second ≤ top
    → IsTop top_id top m (top_two top_id top second m)
unfolding top_two
top_two-IsTop top_id top second [] d h = record { found = inl (refl, refl); ordered = h }
top_two-IsTop top_id top second ((k, c) ∷ m) d h = elim (Bool-cases (ltb top c)) [
  | inl larger ↦
      let rest = top_two-IsTop k c top m d.1 (ground arith) in
      rw (larger, top_two) (IsTop-moved top_id top k c m (top_two k c top m) d.0 rest)
  | inr not_larger ↦ elim (Bool-cases (ltb second c)) [
    | inl close ↦
        let rest = top_two-IsTop top_id top c m d.1 (ground arith) in
        rw (not_larger, close, top_two)
          (IsTop-kept top_id top k c m (top_two top_id top c m) d.0 rest)
    | inr small ↦
        let rest = top_two-IsTop top_id top second m d.1 h in
        rw (not_larger, small, top_two)
          (IsTop-kept top_id top k c m (top_two top_id top second m) d.0 rest)
  ]
]

-- What one entry gives back of its contribution `top`, keeping `second`.
refunded-Keeps :
    (top_id top second : ℕ) (x : State)
    → IsBooked x
    → get_or 0 top_id x.total_contributed ≡ top
    → second ≤ top
    → Keeps x (
        take_from_pool (u_sub top second) (
          credit top_id
            (u_sub top second)
            (record x { total_contributed = put top_id second x.total_contributed })))
unfolding take_from_pool credit
refunded-Keeps top_id top second x b held le =
    let y : State = record x { total_contributed = put top_id second x.total_contributed } in
    let bounded = get_or-le-total top_id x.total_contributed in
    let exact = u_sub_exact top second (omega arith) (omega arith) in
    let uncalled = u_sub top second in
    let out =
      paid_out uncalled y (credit top_id uncalled y) (credit-IsPaid top_id uncalled y (omega arith))
        (omega arith) b.fits in
    record {
      booked = record {
        pool = omega (arith, out.pool, total-put top_id second x.total_contributed);
        fits = omega (arith, out.same_stake);
        distinct = put-IsDistinct top_id second x.total_contributed b.distinct;
      };
      same_stake = out.same_stake;
    }

-- From right books, refunding what nobody called leaves the books right and the table with the
-- chips it held.
pub refund_uncalled-Keeps : (x : State) → IsBooked x → Keeps x (refund_uncalled x)
unfolding refund_uncalled
refund_uncalled-Keeps x b =
    let r = top_two 0 0 0 x.total_contributed in
    let t = top_two-IsTop 0 0 0 x.total_contributed b.distinct (omega arith) in
    elim (Bool-cases (u_sub r.1 r.2 == 0)) [
      | inl called ↦ rw (called, refund_uncalled) (Keeps-refl x b)
      | inr uncalled ↦
          let some_left : 0 < u_sub r.1 r.2 = ground arith in
          rw (uncalled, refund_uncalled)
            (refunded-Keeps r.0 r.1 r.2 x b
              (elim t.found [
                | inl (e, f) ↦ absurd (omega (arith, u_sub_exact r.1 r.2))
                | inr (held, e) ↦ e
              ])
              t.ordered)
    ]
