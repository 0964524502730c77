-- ===== src/Poker/Scores/Order.antt =====
-- Every hand that the evaluator classifies has five kickers of four bits, so its score orders hands.
use terminal_card.Base.{
  inl, inr, ℕ, ◌<◌, ◌≡◌, refl, Option, none, some, List, [], ◌∷◌, ltb, arith, length, Bool-cases,
}
use terminal_card.Deck.{Card}
use terminal_card.Poker.Evaluator.{
  RankedCard, RankCounts, normalize_cards, rank_counts, ranks_of, straight_high, best_flush,
  kickers, classify_pairs, classify_rest, classify_flush, classify_house, classify, classify_hand,
  evaluate_hand,
}
use terminal_card.Poker.Scores.{IsPacked, comes_before, ltb-score}
use terminal_card.Poker.Scores.Bounds.{
  Nibbles, RankNibbles, FlushNibbles, CountNibbles, take-Nibbles, new_hand_value-IsPacked,
  normalize_cards-RankNibbles, ranks_of-Nibbles, kickers-Nibbles, straight_high-lt,
  best_flush-FlushNibbles, count_ranks-CountNibbles,
}

classify_pairs-IsPacked :
    (hand : List RankedCard) (pairs : List ℕ)
    → RankNibbles hand
    → Nibbles pairs
    → IsPacked (classify_pairs hand pairs)
unfolding classify_pairs
classify_pairs-IsPacked hand [] h hp =
    new_hand_value-IsPacked 1 (kickers hand [] 5) (kickers-Nibbles hand [] 5 h)
classify_pairs-IsPacked hand (p ∷ []) h hp =
    new_hand_value-IsPacked 2 (p ∷ p ∷ kickers hand (p ∷ []) 3)
      (hp.0, (hp.0, kickers-Nibbles hand (p ∷ []) 3 h))
classify_pairs-IsPacked hand (p ∷ q ∷ ps) h hp =
    new_hand_value-IsPacked 3 (p ∷ p ∷ q ∷ q ∷ kickers hand (p ∷ q ∷ []) 1)
      (hp.0, (hp.0, (hp.1.0, (hp.1.0, kickers-Nibbles hand (p ∷ q ∷ []) 1 h))))

classify_rest-IsPacked :
    (hand : List RankedCard) (k : RankCounts) (straight : ℕ)
    → RankNibbles hand
    → CountNibbles k
    → straight < 16
    → IsPacked (classify_rest hand k straight)
unfolding classify_rest
classify_rest-IsPacked hand k straight h hk hs = elim (Bool-cases (ltb 0 straight)) [
  | inl run ↦ rw (run, classify_rest) (new_hand_value-IsPacked 5 (straight ∷ []) (hs, tt))
  | inr broken ↦ elim (Bool-cases (ltb 0 k.trip_rank)) [
    | inl trips ↦
        rw (broken, classify_rest, trips)
          (new_hand_value-IsPacked 4
            (k.trip_rank ∷ k.trip_rank ∷ k.trip_rank ∷ kickers hand (k.trip_rank ∷ []) 2)
            (hk.trip, (hk.trip, (hk.trip, kickers-Nibbles hand (k.trip_rank ∷ []) 2 h))))
    | inr fewer ↦
        rw (broken, classify_rest, fewer) (classify_pairs-IsPacked hand k.pairs h hk.paired)
  ]
]

classify_flush-IsPacked :
    (hand : List RankedCard) (k : RankCounts) (flush : Option (List ℕ)) (high straight : ℕ)
    → RankNibbles hand
    → CountNibbles k
    → FlushNibbles (flush, high)
    → straight < 16
    → IsPacked (classify_flush hand k flush straight)
unfolding classify_flush FlushNibbles
classify_flush-IsPacked hand k none high straight h hk hf hs =
    classify_rest-IsPacked hand k straight h hk hs
classify_flush-IsPacked hand k (some ranks) high straight h hk hf hs =
    new_hand_value-IsPacked 6 _ (take-Nibbles 5 ranks hf.0)

classify_house-IsPacked :
    (hand : List RankedCard) (k : RankCounts) (pairs : List ℕ) (flush : Option (List ℕ))
    (high straight : ℕ)
    → RankNibbles hand
    → CountNibbles k
    → Nibbles pairs
    → FlushNibbles (flush, high)
    → straight < 16
    → IsPacked (classify_house hand k pairs flush straight)
unfolding classify_house
classify_house-IsPacked hand k [] flush high straight h hk hp hf hs =
    classify_flush-IsPacked hand k flush high straight h hk hf hs
classify_house-IsPacked hand k (p ∷ ps) flush high straight h hk hp hf hs =
    elim (Bool-cases (ltb 0 k.trip_rank)) [
      | inl trips ↦
          rw (trips, classify_house)
            (new_hand_value-IsPacked 7 (k.trip_rank ∷ k.trip_rank ∷ k.trip_rank ∷ p ∷ p ∷ [])
              (hk.trip, (hk.trip, (hk.trip, (hp.0, (hp.0, tt))))))
      | inr fewer ↦
          rw (fewer, classify_house) (classify_flush-IsPacked hand k flush high straight h hk hf hs)
    ]

FlushNibbles-high : (flush : Option (List ℕ)) (high : ℕ) → FlushNibbles (flush, high) → high < 16
unfolding FlushNibbles
FlushNibbles-high none high h = h
FlushNibbles-high (some ranks) high h = h.1

classify-IsPacked :
    (hand : List RankedCard) (k : RankCounts) (flush : Option (List ℕ)) (high : ℕ)
    → RankNibbles hand
    → CountNibbles k
    → FlushNibbles (flush, high)
    → IsPacked (classify hand k flush high)
unfolding classify
classify-IsPacked hand k flush high h hk hf = elim (Bool-cases (ltb 0 high)) [
  | inl royal ↦
      rw (royal, classify)
        (new_hand_value-IsPacked 9 (high ∷ []) (FlushNibbles-high flush high hf, tt))
  | inr lower ↦ elim (Bool-cases (ltb 0 k.quad_rank)) [
    | inl quads ↦
        rw (lower, classify, quads)
          (new_hand_value-IsPacked 8
            (k.quad_rank
              ∷ k.quad_rank
              ∷ k.quad_rank
              ∷ k.quad_rank
              ∷ kickers hand (k.quad_rank ∷ []) 1)
            (hk.quad, (hk.quad, (hk.quad, (hk.quad, kickers-Nibbles hand (k.quad_rank ∷ []) 1 h)))))
    | inr fewer ↦
        rw (lower, classify, fewer)
          (classify_house-IsPacked hand k k.pairs flush high (straight_high (ranks_of hand)) h hk
            hk.paired hf (straight_high-lt (ranks_of hand) (ranks_of-Nibbles hand h)))
  ]
]

classify_hand-IsPacked : (cards : List Card) → IsPacked (classify_hand cards)
unfolding classify_hand rank_counts
classify_hand-IsPacked cards = elim (Bool-cases (ltb (length cards) 5)) [
  | inl few ↦
      let zeros : Nibbles (0 ∷ 0 ∷ 0 ∷ 0 ∷ 0 ∷ []) =
        (omega arith, (omega arith, (omega arith, (omega arith, (omega arith, tt))))) in
      rw (few, classify_hand) (record { five = refl; nibbles = zeros })
  | inr enough ↦
      let hand = normalize_cards cards in
      let h = normalize_cards-RankNibbles cards in
      let counted =
        count_ranks-CountNibbles 13 hand (record { quad_rank = 0; trip_rank = 0; pairs = [] })
          (omega arith) (record { quad = omega arith; trip = omega arith; paired = tt }) in
      rw (enough, classify_hand)
        (classify-IsPacked hand _ (best_flush hand).0 (best_flush hand).1 h counted
          (best_flush-FlushNibbles hand h))
]

-- Of any two sets of cards, the one has the lower score exactly where the rank and the kickers of its hand
-- come before the other's, place by place: the category decides first, and then the kickers in turn.
pub ltb-evaluate_hand :
    (xs ys : List Card)
    → ltb (evaluate_hand xs) (evaluate_hand ys)
      ≡ comes_before
          ((classify_hand xs).rank ∷ (classify_hand xs).kickers)
          ((classify_hand ys).rank ∷ (classify_hand ys).kickers)
unfolding evaluate_hand
ltb-evaluate_hand xs ys =
    ltb-score (classify_hand xs) (classify_hand ys) (classify_hand-IsPacked xs)
      (classify_hand-IsPacked ys)
