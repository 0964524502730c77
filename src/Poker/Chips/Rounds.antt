-- ===== src/Poker/Chips/Rounds.antt =====
-- Settling a betting round conserves the chips: the streets, the run-out and the showdown
-- (settleAndAdvance).
use terminal_card.Base.{
  ℕ, zero, suc, ◌<◌, ◌≡◌, ◌≢◌, refl, ◌∙◌, ◌⊎◌, inl, inr, Bool, true, false, none, List, [], ◌∷◌,
  ◌++◌, arith, Bool-cases, Option-cases, if◌then◌else◌, ◌==◌, ltb,
}
use terminal_card.Base.GoMap.{put}
use terminal_card.Deck.{draw}
use terminal_card.Game.{Player, contains_id}
use terminal_card.Poker.{
  State, Table, RoundPhase, contributed, is_folded, is_all_in, active_players, all_in_leavers,
  contenders,
}
use terminal_card.Poker.Streets.{
  Outcome, deal_one, then_do, deal_cards, deal_community, deal_street, next_street, run_showdown,
  run_out_board, streets_left, settle_and_advance, hand_scores, clear_street, can_still_bet,
}
use terminal_card.Poker.Chips.{stake, IsBooked}
use terminal_card.Poker.Chips.Showdown.{pay_showdown_settles}

-- A player contests the pot: seated and not folded, or gone while all-in.
abbrev pub Contests : Table → State → ℕ → Type 0
Contests t x i =
    ((contains_id i t.players ≡ true) × (is_folded x i ≡ false))
    ⊎ ((contains_id i t.left_players ≡ true) × (is_folded x i ≡ false) × (is_all_in x i ≡ true))

-- The books are right, the table holds n chips, and two players with chips in contest the pot.
pub record IsContested (i j n : ℕ) (t : Table) (x : State) : Type 0 where
  pub books : IsBooked x
  pub holds : stake x ≡ n
  pub two : i ≢ j
  pub first : Contests t x i × (0 < contributed x i)
  pub second : Contests t x j × (0 < contributed x j)

contains_id-append :
    (i : ℕ) (ps qs : List Player)
    → (contains_id i ps ≡ true) ⊎ (contains_id i qs ≡ true)
    → contains_id i (ps ++ qs) ≡ true
unfolding contains_id
contains_id-append i [] qs (inl h) = absurd (ground arith)
contains_id-append i [] qs (inr h) = h
contains_id-append i (p ∷ ps) qs h = elim (Bool-cases (p.id == i)) [
  | inl here ↦ rw here refl
  | inr later ↦ rw later (contains_id-append i ps qs (ground arith))
]

contains_id-active_players :
    (i : ℕ) (x : State) (ps : List Player)
    → contains_id i ps ≡ true
    → is_folded x i ≡ false
    → contains_id i (active_players x ps) ≡ true
unfolding contains_id active_players
contains_id-active_players i x [] h live = h
contains_id-active_players i x (p ∷ ps) h live = ground (arith, contains_id-active_players i x ps)

contains_id-all_in_leavers :
    (i : ℕ) (x : State) (ps : List Player)
    → contains_id i ps ≡ true
    → is_folded x i ≡ false
    → is_all_in x i ≡ true
    → contains_id i (all_in_leavers x ps) ≡ true
unfolding contains_id all_in_leavers
contains_id-all_in_leavers i x [] h live committed = h
contains_id-all_in_leavers i x (p ∷ ps) h live committed =
    ground (arith, contains_id-all_in_leavers i x ps)

Contests-contenders :
    (i : ℕ) (t : Table) (x : State) → Contests t x i → contains_id i (contenders t x) ≡ true
unfolding contenders
Contests-contenders i t x (inl (seated, live)) =
    contains_id-append i (active_players x t.players) (all_in_leavers x t.left_players)
      (inl (contains_id-active_players i x t.players seated live))
Contests-contenders i t x (inr (gone, live, committed)) =
    contains_id-append i (active_players x t.players) (all_in_leavers x t.left_players)
      (inr (contains_id-all_in_leavers i x t.left_players gone live committed))

-- A step that leaves a contested pot contested, whatever comes of it.
abbrev StepContests : ℕ → ℕ → ℕ → (Table → State → Outcome) → Type 0
StepContests i j n f =
    (t : Table) (x : State) → IsContested i j n t x → IsContested i j n (f t x).table (f t x).match

-- The table still holds n chips, and the books are right if something failed.
pub record IsSettled (n : ℕ) (o : Outcome) : Type 0 where
  pub holds : stake o.match ≡ n
  pub booked : (o.error ≡ none) ⊎ IsBooked o.match

IsContested-on :
    (i j n : ℕ) (t u : Table) (x y : State)
    → IsContested i j n t x
    → IsBooked y
    → stake y ≡ stake x
    → Contests u y i × (0 < contributed y i)
    → Contests u y j × (0 < contributed y j)
    → IsContested i j n u y
IsContested-on i j n t u x y c b s f g = record {
  books = b;
  holds = s ∙ c.holds;
  two = c.two;
  first = f;
  second = g;
}

then_do-IsContested :
    (i j n : ℕ) (o : Outcome) (f : Table → State → Outcome)
    → IsContested i j n o.table o.match
    → StepContests i j n f
    → IsContested i j n (then_do o f).table (then_do o f).match
unfolding then_do
then_do-IsContested i j n o f h k = elim (Option-cases o.error) [
  | inl fine ↦ rw (fine, then_do) (k o.table o.match h)
  | inr (e, failed) ↦ rw (failed, then_do) h
]

then_do-IsSettled :
    (i j n : ℕ) (o : Outcome) (f : Table → State → Outcome)
    → IsContested i j n o.table o.match
    → ((t : Table) (x : State) → IsContested i j n t x → IsSettled n (f t x))
    → IsSettled n (then_do o f)
unfolding then_do
then_do-IsSettled i j n o f h k = elim (Option-cases o.error) [
  | inl fine ↦ rw (fine, then_do) (k o.table o.match h)
  | inr (e, failed) ↦ rw (failed, then_do) (record { holds = h.holds; booked = inr h.books })
]

deal_one-IsContested :
    (i j n : ℕ) (t : Table) (x : State) (keep : Bool)
    → IsContested i j n t x
    → IsContested i j n (deal_one t x keep).table (deal_one t x keep).match
unfolding deal_one
deal_one-IsContested i j n t x keep h = elim (Option-cases (draw t.deck).1) [
  | inl dry ↦ rw (dry, deal_one) h
  | inr (c, drawn) ↦
      let left : Table = record t { deck = (draw t.deck).0 } in
      rw (drawn, deal_one)
        (elim keep
          as (λ k.
            IsContested i j n left (if k then record x { table = x.table ++ c ∷ [] } else x)) [
              | true ↦
                  let y : State = record x { table = x.table ++ c ∷ [] } in
                  IsContested-on i j n t left x y h
                    (record {
                      pool = h.books.pool;
                      fits = h.books.fits;
                      distinct = h.books.distinct;
                    })
                    refl h.first h.second
              | false ↦ IsContested-on i j n t left x x h h.books refl h.first h.second
            ])
]

deal_cards-IsContested : (i j n k : ℕ) → StepContests i j n (deal_cards k)
unfolding deal_cards
deal_cards-IsContested i j n zero t x h = h
deal_cards-IsContested i j n (suc k) t x h =
    then_do-IsContested i j n (deal_one t x true) (deal_cards k)
      (deal_one-IsContested i j n t x true h) (deal_cards-IsContested i j n k)

deal_community-IsContested : (i j n k : ℕ) → StepContests i j n (deal_community k)
unfolding deal_community
deal_community-IsContested i j n k t x h =
    then_do-IsContested i j n (deal_one t x false) (deal_cards k)
      (deal_one-IsContested i j n t x false h) (deal_cards-IsContested i j n k)

phased :
    (i j n : ℕ) (next : RoundPhase) (t : Table) (x : State)
    → IsContested i j n t x
    → IsContested i j n t (record x { phase = next })
phased i j n next t x h =
    IsContested-on i j n t t x (record x { phase = next }) h
      (record { pool = h.books.pool; fits = h.books.fits; distinct = h.books.distinct }) refl
      h.first h.second

deal_street-IsContested :
    (i j n : ℕ) (next : RoundPhase) (cards : ℕ) → StepContests i j n (deal_street next cards)
unfolding deal_street
deal_street-IsContested i j n next cards t x h =
    then_do-IsContested i j n (deal_community cards t x)
      (λ t' x'. record { table = t'; match = record x' { phase = next }; error = none })
      (deal_community-IsContested i j n cards t x h) (phased i j n next)

run_showdown-IsSettled :
    (i j n : ℕ) (t : Table) (x : State) → IsContested i j n t x → IsSettled n (run_showdown t x)
unfolding run_showdown
run_showdown-IsSettled i j n t x h =
    let shown : State = record x { phase = RoundPhase.showdown; reached_showdown = true } in
    let c : IsContested i j n t shown =
      IsContested-on i j n t t x shown h
        (record { pool = h.books.pool; fits = h.books.fits; distinct = h.books.distinct }) refl
        h.first h.second in
    let live = contenders t shown in
    let (z, paid, same, empty) =
      pay_showdown_settles i j live (hand_scores shown live) shown c.books c.two
        (Contests-contenders i t shown c.first.0, c.first.1)
        (Contests-contenders j t shown c.second.0, c.second.1) in
    rw (paid, run_showdown) (record { holds = same ∙ c.holds; booked = inl refl })

run_out_board-IsSettled :
    (i j n k : ℕ) (t : Table) (x : State)
    → IsContested i j n t x
    → IsSettled n (run_out_board k t x)
unfolding run_out_board
run_out_board-IsSettled i j n zero t x h = run_showdown-IsSettled i j n t x h
run_out_board-IsSettled i j n (suc k) t x h = elim (Option-cases (next_street x.phase)) [
  | inl last ↦ rw (last, run_out_board) (run_showdown-IsSettled i j n t x h)
  | inr ((next, cards), more) ↦
      rw (more, run_out_board)
        (then_do-IsSettled i j n (deal_street next cards t x) (run_out_board k)
          (deal_street-IsContested i j n next cards t x h) (run_out_board-IsSettled i j n k))
]

clear_street-IsContested :
    (i j n : ℕ) (t : Table) (ps : List Player) (x : State)
    → IsContested i j n t x
    → IsContested i j n t (clear_street ps x)
unfolding clear_street
clear_street-IsContested i j n t [] x h = h
clear_street-IsContested i j n t (p ∷ ps) x h =
    let y : State = record x {
      player_bets = put p.id 0 x.player_bets;
      acted_this_round = put p.id false x.acted_this_round;
    } in
    clear_street-IsContested i j n t ps y (
      IsContested-on i j n t t x y h
        (record { pool = h.books.pool; fits = h.books.fits; distinct = h.books.distinct }) refl
        h.first h.second)

-- From right books and two players with chips in who contest the pot, settling a round leaves the
-- table with the chips it held, and if it fails the books are still right.
pub settle_and_advance-IsSettled :
    (i j n : ℕ) (t : Table) (x : State)
    → IsContested i j n t x
    → IsSettled n (settle_and_advance t x)
unfolding settle_and_advance
settle_and_advance-IsSettled i j n t x h =
    let z = clear_street t.players x in
    let y : State = record z { current_bet = 0; min_raise = x.big_blind } in
    let hz = clear_street-IsContested i j n t t.players x h in
    let hy : IsContested i j n t y =
      IsContested-on i j n t t z y hz
        (record { pool = hz.books.pool; fits = hz.books.fits; distinct = hz.books.distinct }) refl
        hz.first hz.second in
    elim (Option-cases (next_street y.phase)) [
      | inl last ↦ rw (last, settle_and_advance) (run_showdown-IsSettled i j n t y hy)
      | inr ((next, cards), more) ↦
          rw (more, settle_and_advance)
            (then_do-IsSettled i j n (deal_street next cards t y) _
              (deal_street-IsContested i j n next cards t y hy)
              (λ t' w c. elim (Bool-cases (ltb (can_still_bet y (active_players y t.players)) 2)) [
                | inl few ↦ rw few (run_out_board-IsSettled i j n streets_left t' w c)
                | inr enough ↦ rw enough (record { holds = c.holds; booked = inl refl })
              ]))
    ]
