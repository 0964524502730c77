-- ===== src/Poker/Chips/Moves.antt =====
-- Betting keeps the books: blinds, calls, raises and all-ins.
use terminal_card.Base.{
  ℕ, ◌≤◌, ◌≡◌, refl, ap, sym, ◌∙◌, true, false, inl, inr, List, [], ◌∷◌, arith, min, Bool-cases,
  ltb, ◌==◌, ◌||◌,
}
use terminal_card.Base.Words.{u_add, u_sub, u_add_exact, u_sub_exact}
use terminal_card.Base.GoMap.{put, total, total-put, get_or-le-total, put-IsDistinct}
use terminal_card.Game.{Player}
use terminal_card.Poker.{State, chips, bet, contributed, is_folded, is_all_in}
use terminal_card.Poker.Betting.{
  Action, commit, post_blind, commit_to, set_acted, reset_acted_except, apply_bet_increase,
  apply_move,
}
use terminal_card.Poker.Chips.{stake, IsBooked}

-- The same table by its money: pool, stacks and contributions.
pub record SameMoney (x y : State) : Type 0 where
  pub same_pool : x.main_pool ≡ y.main_pool
  pub same_chips : x.player_chips ≡ y.player_chips
  pub same_contributed : x.total_contributed ≡ y.total_contributed

-- What a move does to the money: the books stay right and the table holds the same chips.
pub record Keeps (x y : State) : Type 0 where
  pub booked : IsBooked y
  pub same_stake : stake y ≡ stake x

pub Keeps-same : (x y z : State) → Keeps x y → SameMoney z y → Keeps x z
Keeps-same x y z k s = record {
  booked = record {
    pool = s.same_pool ∙ k.booked.pool ∙ ap total (sym s.same_contributed);
    fits = rw (s.same_pool, s.same_chips) k.booked.fits;
    distinct = rw s.same_contributed k.booked.distinct;
  };
  same_stake = rw (s.same_pool, s.same_chips) k.same_stake;
}

pub commit-Keeps :
    (pid pay : ℕ) (x : State) → IsBooked x → pay ≤ chips x pid → Keeps x (commit pid pay x)
unfolding commit
commit-Keeps pid pay x b h =
    let chips_le = get_or-le-total pid x.player_chips in
    let contributed_le = get_or-le-total pid x.total_contributed in
    let stack = u_sub_exact (chips x pid) pay (omega arith) (omega arith) in
    let pool = u_add_exact x.main_pool pay (omega arith) in
    let share = u_add_exact (contributed x pid) pay (omega arith) in
    let stacks = total-put pid (u_sub (chips x pid) pay) x.player_chips in
    let shares = total-put pid (u_add (contributed x pid) pay) x.total_contributed in
    record {
      booked = record {
        pool = omega arith;
        fits = omega arith;
        distinct =
            put-IsDistinct pid (u_add (contributed x pid) pay) x.total_contributed b.distinct;
      };
      same_stake = omega arith;
    }

-- From right books, posting a blind of any size leaves the books right and the table with the
-- chips it held.
pub post_blind-Keeps : (pid amount : ℕ) (x : State) → IsBooked x → Keeps x (post_blind pid amount x)
unfolding post_blind
post_blind-Keeps pid amount x b = commit-Keeps pid (min amount (chips x pid)) x b (omega arith)

pub commit_to-Keeps :
    (pid street_total : ℕ) (x : State) → IsBooked x → Keeps x (commit_to pid street_total x)
unfolding commit_to
commit_to-Keeps pid street_total x b = elim (Bool-cases (ltb street_total (bet x pid))) [
  | inl below ↦ simp below (record { booked = b; same_stake = refl })
  | inr up ↦
      simp up
        (commit-Keeps pid (min (u_sub street_total (bet x pid)) (chips x pid)) x b (omega arith))
]

reset_acted_except-SameMoney :
    (except : ℕ) (seats : List Player) (x : State) → SameMoney (reset_acted_except except seats x) x
unfolding reset_acted_except
reset_acted_except-SameMoney except [] x = ground arith
reset_acted_except-SameMoney except (p ∷ ps) x =
    elim (Bool-cases ((p.id == except) || is_folded x p.id || is_all_in x p.id)) [
      | inl kept ↦ simp kept (reset_acted_except-SameMoney except ps x)
      | inr cleared ↦ simp cleared (
          let y : State = record x { acted_this_round = put p.id false x.acted_this_round } in
          let s = reset_acted_except-SameMoney except ps y in
          record {
            same_pool = s.same_pool;
            same_chips = s.same_chips;
            same_contributed = s.same_contributed;
          })
    ]

apply_bet_increase-SameMoney :
    (seats : List Player) (raiser new_bet : ℕ) (x : State)
    → SameMoney (apply_bet_increase seats raiser new_bet x) x
unfolding apply_bet_increase
apply_bet_increase-SameMoney seats raiser new_bet x =
    let y : State = record x { current_bet = new_bet; min_raise = u_sub new_bet x.current_bet } in
    ground (arith, reset_acted_except-SameMoney raiser seats y)

set_acted-SameMoney : (pid : ℕ) (x : State) → SameMoney (set_acted pid x) x
unfolding set_acted
set_acted-SameMoney pid x = ground arith

pub Keeps-refl : (x : State) → IsBooked x → Keeps x x
Keeps-refl x b = record { booked = b; same_stake = refl }

set_acted-Keeps : (pid : ℕ) (x y : State) → Keeps x y → Keeps x (set_acted pid y)
set_acted-Keeps pid x y k = Keeps-same x y (set_acted pid y) k (set_acted-SameMoney pid y)

raised-Keeps :
    (seats : List Player) (pid : ℕ) (x y : State)
    → Keeps x y
    → Keeps x (set_acted pid (apply_bet_increase seats pid (bet y pid) y))
raised-Keeps seats pid x y k = set_acted-Keeps pid x (apply_bet_increase seats pid (bet y pid) y) (
    Keeps-same x y (apply_bet_increase seats pid (bet y pid) y) k
      (apply_bet_increase-SameMoney seats pid (bet y pid) y))

-- From right books, every move of a betting round leaves the books right and the table with the
-- chips it held: the pool is what was contributed, and the chips fit in a uint.
pub apply_move-Keeps :
    (seats : List Player) (pid : ℕ) (action : Action) (x : State)
    → IsBooked x
    → Keeps x (apply_move seats pid action x)
unfolding apply_move
apply_move-Keeps seats pid Action.fold x b =
    set_acted-Keeps pid x (record x { folded = put pid true x.folded })
      (record {
        booked = record { pool = b.pool; fits = b.fits; distinct = b.distinct };
        same_stake = refl;
      })
apply_move-Keeps seats pid Action.check x b = set_acted-Keeps pid x x (Keeps-refl x b)
apply_move-Keeps seats pid Action.call x b =
    set_acted-Keeps pid x (commit_to pid x.current_bet x) (commit_to-Keeps pid x.current_bet x b)
apply_move-Keeps seats pid (Action.raise_to amount) x b =
    raised-Keeps seats pid x (commit_to pid amount x) (commit_to-Keeps pid amount x b)
apply_move-Keeps seats pid Action.all_in x b =
    let new_bet = u_add (bet x pid) (chips x pid) in
    let y = commit_to pid new_bet x in
    let k = commit_to-Keeps pid new_bet x b in
    elim (Bool-cases (ltb x.current_bet new_bet)) [
      | inl raise ↦ rw (raise, apply_move) (raised-Keeps seats pid x y k)
      | inr short ↦ rw (short, apply_move) (set_acted-Keeps pid x y k)
    ]
apply_move-Keeps seats pid Action.next_hand x b = Keeps-refl x b
apply_move-Keeps seats pid Action.foreign x b = Keeps-refl x b
