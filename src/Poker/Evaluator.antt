-- ===== src/Poker/Evaluator.antt =====
-- internal/game/poker/evaluator.go: the value of the best five of up to seven cards.
use Prim.Native.Nat.{bit_and, bit_or}
use terminal_card.Base.{
  ℕ, zero, suc, ◌+◌, ◌*◌, ◌^◌, Bool, true, false, ◌&&◌, Option, none, some, List, [], ◌∷◌, ◌++◌,
  ◌==◌, ltb, leb, if◌then◌else◌, length, take, max,
}
use terminal_card.Deck.{Card, rank_value, spades, hearts, diamonds, clubs}

pub record RankedCard : Type 0 where
  pub rank : ℕ
  pub suit : ℕ

-- handRank is its int: rank_unknown is 0, rank_high_card 1, and so on to rank_straight_flush, 9.
pub record HandValue : Type 0 where
  pub rank : ℕ
  pub kickers : List ℕ

-- score: the rank and the five kickers packed into one int.
unfoldable pub pack_kickers : ℕ → List ℕ → ℕ
pack_kickers rank (k0 ∷ k1 ∷ k2 ∷ k3 ∷ k4 ∷ _) =
    bit_or
      (bit_or (bit_or (bit_or (bit_or (rank * 2 ^ 20) (k0 * 2 ^ 16)) (k1 * 2 ^ 12)) (k2 * 2 ^ 8))
        (k3 * 2 ^ 4))
      k4
pack_kickers rank _ = rank * 2 ^ 20

unfoldable pub score : HandValue → ℕ
unfolding pack_kickers
score h = pack_kickers h.rank h.kickers

-- newHandValue: the kickers copied into five slots, unused ones 0.
unfoldable pub new_hand_value : ℕ → List ℕ → HandValue
new_hand_value rank ks = record { rank = rank; kickers = take 5 (ks ++ 0 ∷ 0 ∷ 0 ∷ 0 ∷ 0 ∷ []) }

-- slices.SortFunc by descending rank. The order of equal ranks is not read by the evaluator.
unfoldable pub insert_ranked : RankedCard → List RankedCard → List RankedCard
insert_ranked a [] = a ∷ []
insert_ranked a (b ∷ bs) = if leb b.rank a.rank then a ∷ b ∷ bs else b ∷ insert_ranked a bs

unfoldable pub normalize_cards : List Card → List RankedCard
unfolding insert_ranked rank_value
normalize_cards [] = []
normalize_cards (c ∷ cs) =
    insert_ranked (record { rank = rank_value c.rank; suit = c.suit }) (normalize_cards cs)

unfoldable pub count_rank : ℕ → List RankedCard → ℕ
count_rank r [] = 0
count_rank r (c ∷ cs) = (if c.rank == r then 1 else 0) + count_rank r cs

pub record RankCounts : Type 0 where
  pub quad_rank : ℕ
  pub trip_rank : ℕ
  pub pairs : List ℕ

-- One round of rankCounts, for the rank `r` that `n` cards have.
unfoldable pub note_rank : ℕ → ℕ → RankCounts → RankCounts
note_rank r n k =
    if n == 4
    then (if k.quad_rank == 0 then record k { quad_rank = r } else k)
    else if n == 3
    then (if k.trip_rank == 0
        then record k { trip_rank = r }
        else record k { pairs = k.pairs ++ r ∷ [] })
    else if n == 2
    then record k { pairs = k.pairs ++ r ∷ [] }
    else k

-- The loop of rankCounts, over the ranks `n + 1` down to 2.
unfoldable pub count_ranks : ℕ → List RankedCard → RankCounts → RankCounts
unfolding count_rank note_rank
count_ranks zero hand k = k
count_ranks (suc n) hand k =
    count_ranks n hand (note_rank (suc (suc n)) (count_rank (suc (suc n)) hand) k)

unfoldable pub rank_counts : List RankedCard → RankCounts
unfolding count_ranks
rank_counts hand = count_ranks 13 hand (record { quad_rank = 0; trip_rank = 0; pairs = [] })

unfoldable pub ranks_of : List RankedCard → List ℕ
ranks_of [] = []
ranks_of (c ∷ cs) = c.rank ∷ ranks_of cs

unfoldable pub ranks_of_suit : ℕ → List RankedCard → List ℕ
ranks_of_suit s [] = []
ranks_of_suit s (c ∷ cs) =
    let rest = ranks_of_suit s cs in if c.suit == s then c.rank ∷ rest else rest

-- 1<<14 | 1<<5 | 1<<4 | 1<<3 | 1<<2
abbrev pub wheel_mask : ℕ
wheel_mask = 16444

-- The loop of straightHigh behind the rank `prev`. `seen` has a bit for each rank.
unfoldable pub straight_from : ℕ → ℕ → ℕ → ℕ → List ℕ → ℕ
straight_from prev run high seen [] = if bit_and seen wheel_mask == wheel_mask then 5 else 0
straight_from prev run high seen (r ∷ rs) =
    let extends = r + 1 == prev in
    let run' = if r == prev then run else if extends then run + 1 else 1 in
    let high' = if r == prev then high else if extends then high else r in
    let rest = straight_from r run' high' (bit_or seen (2 ^ r)) rs in
    if extends && run' == 5 then high else rest

unfoldable pub straight_high : List ℕ → ℕ
unfolding straight_from
straight_high [] = 0
straight_high (r ∷ rs) = straight_from r 1 r (2 ^ r) rs

-- slices.Compare(a, b) > 0
unfoldable pub is_above : List ℕ → List ℕ → Bool
is_above [] bs = false
is_above (a ∷ as') [] = true
is_above (a ∷ as') (b ∷ bs) = let rest = is_above as' bs in if a == b then rest else ltb b a

-- One suit's round of bestFlush: the best flush so far, if any, and the straight flush's high card.
unfoldable pub note_suit : List ℕ → Option (List ℕ) × ℕ → Option (List ℕ) × ℕ
unfolding is_above straight_high
note_suit ranks (best, high) = if ltb (length ranks) 5 then (best, high) else (
  elim best [
    | none ↦ some ranks
    | some b ↦ if is_above (take 5 ranks) (take 5 b) then some ranks else some b
  ],
  max high (straight_high ranks),
)

unfoldable pub best_flush : List RankedCard → Option (List ℕ) × ℕ
unfolding note_suit ranks_of_suit
best_flush hand = note_suit (ranks_of_suit clubs hand) (
    note_suit (ranks_of_suit diamonds hand)
      (note_suit (ranks_of_suit hearts hand) (note_suit (ranks_of_suit spades hand) (none, 0))))

unfoldable pub contains_rank : ℕ → List ℕ → Bool
contains_rank r [] = false
contains_rank r (a ∷ as') = if a == r then true else contains_rank r as'

-- The ranks that are not excluded.
unfoldable pub kept_ranks : List RankedCard → List ℕ → List ℕ
unfolding contains_rank
kept_ranks [] exclude = []
kept_ranks (c ∷ cs) exclude =
    let rest = kept_ranks cs exclude in if contains_rank c.rank exclude then rest else c.rank ∷ rest

unfoldable pub pad : ℕ → List ℕ → List ℕ
pad zero ks = []
pad (suc n) [] = 0 ∷ pad n []
pad (suc n) (k ∷ ks) = k ∷ pad n ks

unfoldable pub kickers : List RankedCard → List ℕ → ℕ → List ℕ
unfolding kept_ranks pad
kickers hand exclude count = pad count (kept_ranks hand exclude)

-- The cases of classify from the pairs on.
unfoldable pub classify_pairs : List RankedCard → List ℕ → HandValue
unfolding kickers new_hand_value
classify_pairs hand (p ∷ q ∷ ps) = new_hand_value 3 (p ∷ p ∷ q ∷ q ∷ kickers hand (p ∷ q ∷ []) 1)
classify_pairs hand (p ∷ []) = new_hand_value 2 (p ∷ p ∷ kickers hand (p ∷ []) 3)
classify_pairs hand [] = new_hand_value 1 (kickers hand [] 5)

unfoldable pub classify_rest : List RankedCard → RankCounts → ℕ → HandValue
unfolding classify_pairs
classify_rest hand k straight =
    if ltb 0 straight
    then new_hand_value 5 (straight ∷ [])
    else if ltb 0 k.trip_rank
    then new_hand_value 4
        (k.trip_rank ∷ k.trip_rank ∷ k.trip_rank ∷ kickers hand (k.trip_rank ∷ []) 2)
    else classify_pairs hand k.pairs

-- The full house, flush and lower cases.
unfoldable pub classify_flush : List RankedCard → RankCounts → Option (List ℕ) → ℕ → HandValue
unfolding classify_rest
classify_flush hand k none straight = classify_rest hand k straight
classify_flush hand k (some ranks) straight = new_hand_value 6 (take 5 ranks)

unfoldable pub classify_house :
    List RankedCard → RankCounts → List ℕ → Option (List ℕ) → ℕ → HandValue
unfolding classify_flush
classify_house hand k [] flush straight = classify_flush hand k flush straight
classify_house hand k (p ∷ ps) flush straight =
    if ltb 0 k.trip_rank
    then new_hand_value 7 (k.trip_rank ∷ k.trip_rank ∷ k.trip_rank ∷ p ∷ p ∷ [])
    else classify_flush hand k flush straight

unfoldable pub classify : List RankedCard → RankCounts → Option (List ℕ) → ℕ → HandValue
unfolding classify_house straight_high ranks_of
classify hand k flush straight_flush_high =
    if ltb 0 straight_flush_high
    then new_hand_value 9 (straight_flush_high ∷ [])
    else if ltb 0 k.quad_rank
    then new_hand_value 8
        (k.quad_rank ∷ k.quad_rank ∷ k.quad_rank ∷ k.quad_rank ∷ kickers hand (k.quad_rank ∷ []) 1)
    else classify_house hand k k.pairs flush (straight_high (ranks_of hand))

unfoldable pub classify_hand : List Card → HandValue
unfolding normalize_cards rank_counts best_flush classify
classify_hand cards =
    if ltb (length cards) 5
    then record { rank = 0; kickers = 0 ∷ 0 ∷ 0 ∷ 0 ∷ 0 ∷ [] }
    else let hand = normalize_cards cards in
      let (flush, high) = best_flush hand in classify hand (rank_counts hand) flush high

unfoldable pub evaluate_hand : List Card → ℕ
unfolding classify_hand score
evaluate_hand cards = score (classify_hand cards)
