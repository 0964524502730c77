-- ===== src/Hearts/Tricks.antt =====
-- internal/game/hearts/trick.go: the seats, the passes, who wins a trick, and the points of a hand.
use terminal_card.Base.{
  ℕ, zero, suc, ◌+◌, ◌-◌, ◌%◌, Bool, true, false, ◌&&◌, ◌||◌, not, Option, none, some, List, [],
  ◌∷◌, ◌==◌, ltb, leb, if◌then◌else◌, length, take,
}
use terminal_card.Base.Int.{ℤ, pos, ◌+ℤ◌, rem}
use terminal_card.Base.GoMap.{GoMap, get_or, put, lookup}
use terminal_card.Deck.{Card, card_eq, contains_card, hearts, rank_value}
use terminal_card.Game.{Player, seat}
use terminal_card.Game.Cards.{append_hand}
use terminal_card.Hearts.{
  State, PassDirection, cards_to_pass, penalty_points_total, two_of_clubs, queen_of_spades, get_nil,
}

-- findTwoOfClubs' loop from seat `i` on.
unfoldable pub find_from : ℕ → List Player → ℕ
find_from i [] = 0
find_from i (p ∷ ps) =
    let later = find_from (suc i) ps in if contains_card two_of_clubs p.cards then i else later

unfoldable pub find_two_of_clubs : List Player → ℕ
find_two_of_clubs ps = find_from 0 ps

-- For n > 0 seats, which keeps the difference of the right pass above 0.
unfoldable pub pass_recipient : ℕ → PassDirection → ℕ → ℕ
pass_recipient from PassDirection.pass_left n = (from + 1) % n
pass_recipient from PassDirection.pass_right n = (from + n - 1) % n
pass_recipient from PassDirection.pass_across n = (from + 2) % n
pass_recipient from PassDirection.pass_none n = from

-- applyAllPasses' loop over the seats from `i` on, of `n` seats. A seat's hand grows, its id does not.
unfoldable pub pass_from : ℕ → ℕ → List Player → State → List Player → List Player
pass_from n i [] x table = table
pass_from n i (p ∷ ps) x table =
    pass_from n (suc i) ps x
      (append_hand (pass_recipient i x.pass_direction n) (get_nil [] p.id x.pending_passes) table)

unfoldable pub apply_all_passes : List Player → State → List Player
apply_all_passes ps x = pass_from (length ps) 0 ps x ps

-- nextUnpassedSeat's loop: `k` more steps, the next one `step`. An index out of range is none.
unfoldable pub unpassed_from : ℕ → ℕ → List Player → State → ℤ → Option ℤ
unpassed_from zero step ps x from = some from
unpassed_from (suc k) step ps x from =
    let later = unpassed_from k (suc step) ps x from in
    let next = rem (from +ℤ pos step) (length ps) in
    elim (seat next ps) [
      | none ↦ none
      | some p ↦ if not (get_nil false p.id x.passed) then some next else later
    ]

unfoldable pub next_unpassed_seat : List Player → State → ℤ → Option ℤ
next_unpassed_seat ps x from = unpassed_from (length ps) 1 ps x from

-- A round of trickWinner's loop: the best value so far, none for -1, and the seat that holds it.
unfoldable pub beats : ℕ → Option ℕ → Bool
beats v none = true
beats v (some best) = ltb best v

unfoldable pub winner_step : State → ℕ → Option Card → Option ℕ × ℤ → Option ℕ × ℤ
winner_step x i none best = best
winner_step x i (some card) best =
    if not (card.suit == x.led_suit)
    then best
    else if beats (rank_value card.rank) best.0
    then (some (rank_value card.rank), pos i)
    else best

unfoldable pub winner_from : State → ℕ → List Player → Option ℕ × ℤ → Option ℕ × ℤ
winner_from x i [] best = best
winner_from x i (p ∷ ps) best =
    winner_from x (suc i) ps (winner_step x i (lookup p.id x.trick_cards) best)

-- The seat that trickWinner names.
unfoldable pub trick_winner : List Player → State → ℤ
trick_winner ps x = (winner_from x 0 ps (none, x.trick_leader)).1

unfoldable pub card_points : Card → ℕ
card_points c = (if c.suit == hearts then 1 else 0) + (if card_eq c queen_of_spades then 13 else 0)

unfoldable pub trick_points : GoMap Card → ℕ
trick_points [] = 0
trick_points ((k, c) ∷ m) = card_points c + trick_points m

-- The player who took every penalty point.
unfoldable pub shooter : State → List Player → Option ℕ
shooter x [] = none
shooter x (p ∷ ps) =
    let later = shooter x ps in
    if get_or 0 p.id x.hand_points == penalty_points_total then some p.id else later

unfoldable pub add_score : ℕ → ℕ → GoMap ℕ → GoMap ℕ
add_score pid points scores = put pid (get_or 0 pid scores + points) scores

unfoldable pub score_moon : ℕ → List Player → GoMap ℕ → GoMap ℕ
score_moon shooter_id [] scores = scores
score_moon shooter_id (p ∷ ps) scores =
    score_moon shooter_id ps
      (if p.id == shooter_id then scores else add_score p.id penalty_points_total scores)

unfoldable pub score_points : State → List Player → GoMap ℕ → GoMap ℕ
score_points x [] scores = scores
score_points x (p ∷ ps) scores =
    score_points x ps (add_score p.id (get_or 0 p.id x.hand_points) scores)

unfoldable pub score_by : State → List Player → Option ℕ → State
score_by x ps none = record x { cumulative_scores = score_points x ps x.cumulative_scores }
score_by x ps (some pid) = record x { cumulative_scores = score_moon pid ps x.cumulative_scores }

-- scoreHand. The shooter's id counts as found where it is not empty.
unfoldable pub named : Option ℕ → Option ℕ
named none = none
named (some pid) = if pid == 0 then none else some pid

unfoldable pub score_hand : State → List Player → State
score_hand x ps = score_by x ps (named (shooter x ps))

-- The order of threeLowestCards: by rank value, then by suit.
unfoldable pub card_before : Card → Card → Bool
card_before a b =
    ltb (rank_value a.rank) (rank_value b.rank)
    || ((rank_value a.rank == rank_value b.rank) && leb a.suit b.suit)

unfoldable pub insert_card : Card → List Card → List Card
insert_card c [] = c ∷ []
insert_card c (d ∷ ds) =
    let rest = insert_card c ds in if card_before c d then c ∷ d ∷ ds else d ∷ rest

unfoldable pub sort_cards : List Card → List Card
sort_cards [] = []
sort_cards (c ∷ cs) = insert_card c (sort_cards cs)

unfoldable pub three_lowest_cards : List Card → List Card
three_lowest_cards hand =
    if leb (length hand) cards_to_pass then hand else take cards_to_pass (sort_cards hand)
