-- ===== src/Poker/Raises.antt =====
-- What a raise that ValidateAction accepts does when it is applied (validateRaiseTo and commitTo).
use terminal_card.Base.{
  ◌≢◌, List, [], ◌∷◌, max, ◌==◌, ℕ, ◌+◌, ◌<◌, ◌≤◌, ◌≡◌, ◌∙◌, ◌⊎◌, inl, inr, false, none, arith, min,
  Bool-cases, ltb, leb,
}
use terminal_card.Base.Words.{u64_mod, u_add, u_sub, u_add_exact, u_sub_exact}
use terminal_card.Base.GoMap.{get_or-put}
use terminal_card.Game.{Player}
use terminal_card.Poker.{State, Table, chips, bet, has_acted, contenders}
use terminal_card.Poker.Betting.{
  commit, commit_to, validate_raise_to, validate_raise_size, check_betting_reopened,
  largest_callable_bet, largest_bet_of,
}

-- One of the players is another than `pid`, and the bet and the stack of that one reach `amount`.
unfoldable pub HasCaller : State → ℕ → ℕ → List Player → Type 0
HasCaller x pid amount [] = ⊥
HasCaller x pid amount (o ∷ os) =
    ((o.id ≢ pid) × (amount ≤ u_add (bet x o.id) (chips x o.id))) ⊎ HasCaller x pid amount os

-- A raise to `amount` that may stand: by a player who has not acted, above the bet, with an opponent in
-- the hand who can call it whole, covered, and of full size unless it takes the player's last chip.
pub record IsRaise (t : Table) (x : State) (pid amount : ℕ) : Type 0 where
  pub to_act : has_acted x pid ≡ false
  pub above : x.current_bet < amount
  pub callable : HasCaller x pid amount (contenders t x)
  pub covered : amount ≤ bet x pid + chips x pid
  pub full : (amount ≡ bet x pid + chips x pid) ⊎ (x.current_bet + x.min_raise ≤ amount)

largest-HasCaller :
    (x : State) (pid amount : ℕ) (os : List Player) (best : ℕ)
    → amount ≤ largest_bet_of x pid os best
    → best < amount
    → HasCaller x pid amount os
unfolding largest_bet_of HasCaller
largest-HasCaller x pid amount [] best h low = absurd (omega arith)
largest-HasCaller x pid amount (o ∷ os) best h low = elim (Bool-cases (o.id == pid)) [
  | inl own ↦ inr (largest-HasCaller x pid amount os best (simp own at h) low)
  | inr other ↦ elim (Bool-cases (leb amount (u_add (bet x o.id) (chips x o.id)))) [
    | inl reach ↦ inl ((λ same. absurd (ground arith)), ground arith)
    | inr short ↦ inr (
        largest-HasCaller x pid amount os (max best (u_add (bet x o.id) (chips x o.id)))
          (simp other at h) (ground arith))
  ]
]

raise_size-fits :
    (x : State) (pid amount : ℕ)
    → validate_raise_size x pid amount ≡ none
    → bet x pid + chips x pid < u64_mod
    → bet x pid ≤ x.current_bet
    → x.current_bet < amount
    → amount < u64_mod
    → (amount ≤ bet x pid + chips x pid)
      × ((amount ≡ bet x pid + chips x pid) ⊎ (x.current_bet + x.min_raise ≤ amount))
unfolding validate_raise_size
raise_size-fits x pid amount h fits below above small =
    let more = u_sub_exact amount (bet x pid) (omega arith) small in
    let by = u_sub_exact amount x.current_bet (omega arith) small in
    elim (Bool-cases (ltb (chips x pid) (u_sub amount (bet x pid)))) [
      | inl short ↦ absurd (ground arith)
      | inr enough ↦ elim (Bool-cases (ltb (u_sub amount (bet x pid)) (chips x pid))) [
        | inr all ↦ (ground arith, inl (ground arith))
        | inl part ↦ elim (Bool-cases (ltb (u_sub amount x.current_bet) x.min_raise)) [
          | inl low ↦ absurd (ground arith)
          | inr full ↦ (ground arith, inr (ground arith))
        ]
      ]
    ]

accepted-IsRaise :
    (t : Table) (x : State) (pid amount : ℕ)
    → validate_raise_to t x pid amount ≡ none
    → bet x pid + chips x pid < u64_mod
    → bet x pid ≤ x.current_bet
    → amount < u64_mod
    → IsRaise t x pid amount
unfolding validate_raise_to check_betting_reopened largest_callable_bet
accepted-IsRaise t x pid amount h fits below small = elim (Bool-cases (has_acted x pid)) [
  | inl shut ↦ absurd (ground arith)
  | inr still ↦ elim (Bool-cases (leb amount x.current_bet)) [
    | inl low ↦ absurd (ground arith)
    | inr high ↦ elim (Bool-cases (ltb (largest_callable_bet t x pid) amount)) [
      | inl wild ↦ absurd (ground arith)
      | inr callable ↦
          let size : validate_raise_size x pid amount ≡ none = ground arith in
          let (covered, full) = raise_size-fits x pid amount size fits below (ground arith) small in
          let above : x.current_bet < amount = ground arith in
          record {
            to_act = still;
            above = above;
            callable =
                largest-HasCaller x pid amount (contenders t x) 0 (ground arith) (omega arith);
            covered = covered;
            full = full;
          }
    ]
  ]
]

-- A covered bet is put out whole.
pub commit_to-bet :
    (pid amount : ℕ) (x : State)
    → bet x pid + chips x pid < u64_mod
    → bet x pid ≤ amount
    → amount ≤ bet x pid + chips x pid
    → bet (commit_to pid amount x) pid ≡ amount
unfolding commit_to commit
commit_to-bet pid amount x fits up covered =
    let more = u_sub_exact amount (bet x pid) up (omega arith) in
    let pay = min (u_sub amount (bet x pid)) (chips x pid) in
    let whole = u_add_exact (bet x pid) pay (omega arith) in
    let goes_up : ltb amount (bet x pid) ≡ false = ground arith in
    rw (goes_up, commit_to)
      (get_or-put 0 pid pid (u_add (bet x pid) pay) x.player_bets ∙ ground arith)

-- If the rules accept a raise from a player whose bet is not above the current bet, and the numbers fit
-- in a uint, then the raise is put out whole, never cut down to the stack: the
-- player's bet is then the amount they named.
bet-commit_to_accepted :
    (t : Table) (x : State) (pid amount : ℕ)
    → validate_raise_to t x pid amount ≡ none
    → bet x pid + chips x pid < u64_mod
    → bet x pid ≤ x.current_bet
    → amount < u64_mod
    → bet (commit_to pid amount x) pid ≡ amount
bet-commit_to_accepted t x pid amount h fits below small =
    let raise = accepted-IsRaise t x pid amount h fits below small in
    commit_to-bet pid amount x fits (omega (arith, raise.above)) raise.covered
