-- ===== src/Poker/Scores/Bounds.antt =====
-- What the evaluator reads off the cards fits four bits.
use terminal_card.Base.{
  inl, inr, ℕ, zero, suc, ◌+◌, ◌<◌, ◌≡◌, refl, Bool, true, false, Option, none, some, List, [], ◌∷◌,
  ◌++◌, ◌==◌, ltb, leb, arith, max, if◌then◌else◌, length, take, All, Bool-cases,
}
use terminal_card.Deck.{Card, rank_value, spades, hearts, diamonds, clubs}
use terminal_card.Poker.Evaluator.{
  RankedCard, RankCounts, new_hand_value, insert_ranked, normalize_cards, count_rank, note_rank,
  count_ranks, ranks_of, ranks_of_suit, straight_from, straight_high, is_above, note_suit,
  best_flush, contains_rank, kept_ranks, pad, kickers,
}
use terminal_card.Poker.Scores.{IsPacked}

-- Four bits each.
abbrev pub Nibbles : List ℕ → Type 0
Nibbles = All (λ k. k < 16)

abbrev pub RankNibbles : List RankedCard → Type 0
RankNibbles = All (λ c. c.rank < 16)

append-Nibbles : (xs ys : List ℕ) → Nibbles xs → Nibbles ys → Nibbles (xs ++ ys)
append-Nibbles [] ys hx hy = hy
append-Nibbles (x ∷ xs) ys hx hy = (hx.0, append-Nibbles xs ys hx.1 hy)

pub take-Nibbles : (n : ℕ) (xs : List ℕ) → Nibbles xs → Nibbles (take n xs)
take-Nibbles zero xs h = tt
take-Nibbles (suc n) [] h = tt
take-Nibbles (suc n) (x ∷ xs) h = (h.0, take-Nibbles n xs h.1)

five_of : (ks : List ℕ) → length (take 5 (ks ++ 0 ∷ 0 ∷ 0 ∷ 0 ∷ 0 ∷ [])) ≡ 5
five_of [] = refl
five_of (a ∷ []) = refl
five_of (a ∷ b ∷ []) = refl
five_of (a ∷ b ∷ c ∷ []) = refl
five_of (a ∷ b ∷ c ∷ d ∷ []) = refl
five_of (a ∷ b ∷ c ∷ d ∷ e ∷ ks) = refl

pub new_hand_value-IsPacked :
    (rank : ℕ) (ks : List ℕ) → Nibbles ks → IsPacked (new_hand_value rank ks)
unfolding new_hand_value
new_hand_value-IsPacked rank ks h =
    let zeros : Nibbles (0 ∷ 0 ∷ 0 ∷ 0 ∷ 0 ∷ []) =
      (omega arith, (omega arith, (omega arith, (omega arith, (omega arith, tt))))) in
    record { five = five_of ks; nibbles = take-Nibbles 5 _ (append-Nibbles ks _ h zeros) }

rank_value-lt : (r : ℕ) → rank_value r < 16
unfolding rank_value
rank_value-lt r = ground arith

insert_ranked-RankNibbles :
    (a : RankedCard) (bs : List RankedCard)
    → a.rank < 16
    → RankNibbles bs
    → RankNibbles (insert_ranked a bs)
unfolding insert_ranked
insert_ranked-RankNibbles a [] ha hb = (ha, tt)
insert_ranked-RankNibbles a (b ∷ bs) ha hb = elim (Bool-cases (leb b.rank a.rank)) [
  | inl here ↦ rw (here, insert_ranked) (ha, hb)
  | inr later ↦ rw (later, insert_ranked) (hb.0, insert_ranked-RankNibbles a bs ha hb.1)
]

pub normalize_cards-RankNibbles : (cs : List Card) → RankNibbles (normalize_cards cs)
unfolding normalize_cards
normalize_cards-RankNibbles [] = tt
normalize_cards-RankNibbles (c ∷ cs) =
    insert_ranked-RankNibbles _ (normalize_cards cs) (rank_value-lt c.rank)
      (normalize_cards-RankNibbles cs)

pub ranks_of-Nibbles : (hand : List RankedCard) → RankNibbles hand → Nibbles (ranks_of hand)
unfolding ranks_of
ranks_of-Nibbles [] h = tt
ranks_of-Nibbles (c ∷ cs) h = (h.0, ranks_of-Nibbles cs h.1)

ranks_of_suit-Nibbles :
    (s : ℕ) (hand : List RankedCard) → RankNibbles hand → Nibbles (ranks_of_suit s hand)
unfolding ranks_of_suit
ranks_of_suit-Nibbles s [] h = tt
ranks_of_suit-Nibbles s (c ∷ cs) h = elim (Bool-cases (c.suit == s)) [
  | inl same ↦ rw (same, ranks_of_suit) (h.0, ranks_of_suit-Nibbles s cs h.1)
  | inr other ↦ rw (other, ranks_of_suit) (ranks_of_suit-Nibbles s cs h.1)
]

kept_ranks-Nibbles :
    (hand : List RankedCard) (exclude : List ℕ)
    → RankNibbles hand
    → Nibbles (kept_ranks hand exclude)
unfolding kept_ranks
kept_ranks-Nibbles [] exclude h = tt
kept_ranks-Nibbles (c ∷ cs) exclude h = elim (Bool-cases (contains_rank c.rank exclude)) [
  | inl gone ↦ rw (gone, kept_ranks) (kept_ranks-Nibbles cs exclude h.1)
  | inr kept ↦ rw (kept, kept_ranks) (h.0, kept_ranks-Nibbles cs exclude h.1)
]

pad-Nibbles : (n : ℕ) (ks : List ℕ) → Nibbles ks → Nibbles (pad n ks)
unfolding pad
pad-Nibbles zero ks h = tt
pad-Nibbles (suc n) [] h = (omega arith, pad-Nibbles n [] tt)
pad-Nibbles (suc n) (k ∷ ks) h = (h.0, pad-Nibbles n ks h.1)

pub kickers-Nibbles :
    (hand : List RankedCard) (exclude : List ℕ) (n : ℕ)
    → RankNibbles hand
    → Nibbles (kickers hand exclude n)
unfolding kickers
kickers-Nibbles hand exclude n h = pad-Nibbles n _ (kept_ranks-Nibbles hand exclude h)

either-lt : (b : Bool) (x y : ℕ) → x < 16 → y < 16 → (if b then x else y) < 16
either-lt true x y hx hy = hx
either-lt false x y hx hy = hy

straight_from-lt :
    (prev run high seen : ℕ) (ranks : List ℕ)
    → high < 16
    → Nibbles ranks
    → straight_from prev run high seen ranks < 16
unfolding straight_from
straight_from-lt prev run high seen [] hh hr = either-lt _ 5 0 (omega arith) (omega arith)
straight_from-lt prev run high seen (r ∷ rs) hh hr =
    let small = either-lt (r == prev) high _ hh (either-lt (r + 1 == prev) high r hh hr.0) in
    either-lt _ high _ hh (straight_from-lt r _ _ _ rs small hr.1)

pub straight_high-lt : (ranks : List ℕ) → Nibbles ranks → straight_high ranks < 16
unfolding straight_high
straight_high-lt [] h = omega arith
straight_high-lt (r ∷ rs) h = straight_from-lt r 1 r _ rs h.0 h.1

-- A flush that was found has ranks of four bits, and so has the straight flush's high card.
unfoldable pub FlushNibbles : Option (List ℕ) × ℕ → Type 0
FlushNibbles (none, high) = high < 16
FlushNibbles (some ranks, high) = Nibbles ranks × (high < 16)

max-lt : (a b : ℕ) → a < 16 → b < 16 → max a b < 16
max-lt a b ha hb = omega arith

note_suit-FlushNibbles :
    (ranks : List ℕ) (best : Option (List ℕ) × ℕ)
    → Nibbles ranks
    → FlushNibbles best
    → FlushNibbles (note_suit ranks best)
unfolding note_suit FlushNibbles
note_suit-FlushNibbles ranks (none, high) h hb = elim (Bool-cases (ltb (length ranks) 5)) [
  | inl few ↦ rw (few, note_suit) hb
  | inr many ↦ rw (many, note_suit) (h, max-lt high _ hb (straight_high-lt ranks h))
]
note_suit-FlushNibbles ranks (some best, high) h hb = elim (Bool-cases (ltb (length ranks) 5)) [
  | inl few ↦ rw (few, note_suit) hb
  | inr many ↦ elim (Bool-cases (is_above (take 5 ranks) (take 5 best))) [
    | inl above ↦ rw (many, note_suit, above) (h, max-lt high _ hb.1 (straight_high-lt ranks h))
    | inr below ↦ rw (many, note_suit, below) (hb.0, max-lt high _ hb.1 (straight_high-lt ranks h))
  ]
]

pub best_flush-FlushNibbles :
    (hand : List RankedCard) → RankNibbles hand → FlushNibbles (best_flush hand)
unfolding best_flush FlushNibbles
best_flush-FlushNibbles hand h = note_suit-FlushNibbles _ _ (ranks_of_suit-Nibbles clubs hand h) (
    note_suit-FlushNibbles _ _ (ranks_of_suit-Nibbles diamonds hand h) (
      note_suit-FlushNibbles _ _ (ranks_of_suit-Nibbles hearts hand h)
        (note_suit-FlushNibbles _ (none, 0) (ranks_of_suit-Nibbles spades hand h) (omega arith))))

pub record CountNibbles (k : RankCounts) : Type 0 where
  pub quad : k.quad_rank < 16
  pub trip : k.trip_rank < 16
  pub paired : Nibbles k.pairs

note_rank-CountNibbles :
    (r n : ℕ) (k : RankCounts) → r < 16 → CountNibbles k → CountNibbles (note_rank r n k)
unfolding note_rank
note_rank-CountNibbles r n k hr h =
    let longer = append-Nibbles k.pairs (r ∷ []) h.paired (hr, tt) in
    elim (Bool-cases (n == 4)) [
      | inl four ↦ elim (Bool-cases (k.quad_rank == 0)) [
        | inl first ↦
            rw (four, note_rank, first) (record { quad = hr; trip = h.trip; paired = h.paired })
        | inr later ↦ rw (four, note_rank, later) h
      ]
      | inr not_four ↦ elim (Bool-cases (n == 3)) [
        | inl three ↦ elim (Bool-cases (k.trip_rank == 0)) [
          | inl first ↦
              rw (not_four, note_rank, three, first)
                (record { quad = h.quad; trip = hr; paired = h.paired })
          | inr later ↦
              rw (not_four, note_rank, three, later)
                (record { quad = h.quad; trip = h.trip; paired = longer })
        ]
        | inr not_three ↦ elim (Bool-cases (n == 2)) [
          | inl two ↦
              rw (not_four, note_rank, not_three, two)
                (record { quad = h.quad; trip = h.trip; paired = longer })
          | inr single ↦ rw (not_four, note_rank, not_three, single) h
        ]
      ]
    ]

pub count_ranks-CountNibbles :
    (n : ℕ) (hand : List RankedCard) (k : RankCounts)
    → n < 14
    → CountNibbles k
    → CountNibbles (count_ranks n hand k)
unfolding count_ranks
count_ranks-CountNibbles zero hand k h hk = hk
count_ranks-CountNibbles (suc n) hand k h hk =
    count_ranks-CountNibbles n hand _ (omega arith)
      (note_rank-CountNibbles (suc (suc n)) (count_rank (suc (suc n)) hand) k (omega arith) hk)
