-- ===== src/Poker/Chips.antt =====
-- Chips only move between the stacks and the pool: what the table holds, and the books on it.
pub mod Moves
pub mod Layers
pub mod Levels
pub mod Cutting
pub mod Payout
pub mod Refunds
pub mod Showdown
pub mod Rounds
pub mod Hands
use terminal_card.Base.{ℕ, ◌+◌, ◌<◌, ◌≤◌, ◌≡◌, refl, ◌∙◌, List, [], ◌∷◌, arith}
use terminal_card.Base.Words.{u64_mod, u_add, u_sub, u_add_exact, u_sub_exact}
use terminal_card.Base.GoMap.{GoMap, get_or, put, total, total-put, get_or-le-total, IsDistinct}
use terminal_card.Poker.{
  State, chips, contributed, credit, take_from_pool, chips_in_play, add_values,
}

-- All the chips on the table, as a number without a bound.
abbrev pub stake : State → ℕ
stake x = x.main_pool + total x.player_chips

-- The pool is what was contributed to this hand, and the chips on the table fit in a uint.
pub record IsBooked (x : State) : Type 0 where
  pub pool : x.main_pool ≡ total x.total_contributed
  pub fits : stake x < u64_mod
  pub distinct : IsDistinct x.total_contributed

add_values-total :
    (acc : ℕ) (m : GoMap ℕ) → acc + total m < u64_mod → add_values acc m ≡ acc + total m
unfolding add_values total
add_values-total acc [] h = omega arith
add_values-total acc ((k, v) ∷ m) h =
    let exact = u_add_exact acc v (omega arith) in
    add_values-total (u_add acc v) m (omega arith) ∙ omega arith

-- chipsInPlay, added up as uint, is the sum of the pool and the stacks while that sum fits in a
-- uint.
pub chips_in_play-stake : (x : State) → stake x < u64_mod → chips_in_play x ≡ stake x
unfolding chips_in_play
chips_in_play-stake x h = add_values-total x.main_pool x.player_chips h

-- A credit adds to the stacks what a stack can take.
pub chips-credit :
    (pid amount : ℕ) (x : State)
    → total x.player_chips + amount < u64_mod
    → total (credit pid amount x).player_chips ≡ total x.player_chips + amount
unfolding credit
chips-credit pid amount x h = omega (
  arith,
  total-put pid (u_add (chips x pid) amount) x.player_chips,
  get_or-le-total pid x.player_chips,
  u_add_exact (chips x pid) amount,
)

pub pool-take_from_pool :
    (amount : ℕ) (x : State)
    → amount ≤ x.main_pool
    → x.main_pool < u64_mod
    → ((take_from_pool amount x).main_pool + amount ≡ x.main_pool)
      × ((take_from_pool amount x).player_chips ≡ x.player_chips)
unfolding take_from_pool
pool-take_from_pool amount x h k = (omega (arith, u_sub_exact x.main_pool amount), refl)
