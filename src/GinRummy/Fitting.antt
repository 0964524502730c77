-- ===== src/GinRummy/Fitting.antt =====
-- What canAttach of layoffs.go decides: whether the card and the meld together are a meld.
use terminal_card.Base.{
  ℕ, suc, ◌+◌, ◌<◌, ◌≤◌, ◌≡◌, ◌≢◌, refl, sym, ap, ◌∙◌, subst, true, false, ◌&&◌, ◌||◌, List, [],
  ◌∷◌, ◌++◌, ◌==◌, inl, inr, length, arith, Bool, Bool-cases, length-append, leb, ltb, not,
}
use terminal_card.Deck.{Card, run_order}
use terminal_card.GinRummy.Layoffs.{
  same_rank, is_set, insert_card, sort_run, follows, run_sorted, is_run, head_card, last_card,
  at_end, can_attach,
}
use terminal_card.GinRummy.Keys.{key, Absent, Distinct, is_run-Distinct}

last_card-high :
    (suit : ℕ) (d : Card) (ds : List Card) → follows suit d ds ≡ true → key d ≤ key (last_card d ds)
unfolding follows last_card
last_card-high suit d [] h = omega arith
last_card-high suit d (e ∷ es) h =
    let up : key e ≡ key d + 1 = ground arith in
    let rest : follows suit e es ≡ true = ground arith in
    omega (arith, last_card-high suit e es rest)

-- A card above the first of a run goes on with it exactly if it follows the last.
follows-insert :
    (suit : ℕ) (c d : Card) (ds : List Card)
    → follows suit d ds ≡ true
    → key d < key c
    → follows suit d (insert_card c ds) ≡ (c.suit == suit && key c == key (last_card d ds) + 1)
unfolding follows insert_card last_card
follows-insert suit c d [] h up = ground arith
follows-insert suit c d (e ∷ es) h up =
    let step : key e ≡ key d + 1 = ground arith in
    let same : e.suit ≡ suit = ground arith in
    let rest : follows suit e es ≡ true = ground arith in
    let last = last_card-high suit e es rest in
    elim (Bool-cases (leb (run_order c.rank) (run_order e.rank))) [
      | inl low ↦ rw (low, insert_card) (ground arith)
      | inr high ↦
          rw (high, insert_card) (ground (arith, follows-insert suit c e es rest (ground arith)))
    ]

run_sorted-insert :
    (c d : Card) (ds : List Card)
    → run_sorted (d ∷ ds) ≡ true
    → at_end c (d ∷ ds) ≡ run_sorted (insert_card c (d ∷ ds))
unfolding run_sorted insert_card at_end follows
run_sorted-insert c d ds h =
    let last = last_card-high d.suit d ds h in
    elim (Bool-cases (leb (run_order c.rank) (run_order d.rank))) [
      | inl low ↦ elim (Bool-cases (c.suit == d.suit)) [
        | inl same ↦
            let suits : c.suit ≡ d.suit = ground arith in
            let run : follows c.suit d ds ≡ true =
              subst (λ s. follows s d ds ≡ true) (sym suits) h in
            rw (low, insert_card) (ground arith)
        | inr other ↦ rw (low, insert_card) (ground arith)
      ]
      | inr high ↦
          rw (high, insert_card) (ground (arith, follows-insert d.suit c d ds h (ground arith)))
    ]

-- A set or a run: what a meld is.
unfoldable pub is_meld : List Card → Bool
is_meld m = is_set m || is_run m

same_rank-append :
    (r : ℕ) (xs : List Card) (c : Card)
    → same_rank r (xs ++ c ∷ []) ≡ (same_rank r xs && c.rank == r)
unfolding same_rank
same_rank-append r [] c = ground arith
same_rank-append r (x ∷ xs) c = ground (arith, same_rank-append r xs c)

-- No list of cards is a set and has a key of its own for each card.
set_repeats : (m : List Card) → is_set m ≡ true → Distinct m → ⊥
unfolding is_set same_rank
set_repeats [] h d = absurd (ground arith)
set_repeats (x ∷ []) h d = absurd (ground arith)
set_repeats (x ∷ y ∷ r) h d =
    let same : y.rank ≡ x.rank = ground arith in d.0.0 (ap (λ n. run_order n) same)

run_not_set : (m : List Card) → is_run m ≡ true → is_set m ≡ false
run_not_set m h = elim (Bool-cases (is_set m)) [
  | inl set ↦ absurd (set_repeats m set (is_run-Distinct m h))
  | inr none_set ↦ none_set
]

longer_set :
    (c : Card) (m : List Card)
    → is_set m ≡ true
    → is_set (c ∷ m) ≡ (ltb (length m) 4 && c.rank == (head_card m).rank)
unfolding is_set same_rank head_card
longer_set c [] h = absurd (ground arith)
longer_set c (x ∷ xs) h = elim (Bool-cases (c.rank == x.rank)) [
  | inl same ↦
      let ranks : c.rank ≡ x.rank = ground arith in
      let all_x : same_rank x.rank xs ≡ true = ground arith in
      let all_c : same_rank c.rank xs ≡ true =
        subst (λ r. same_rank r xs ≡ true) (sym ranks) all_x in
      ground arith
  | inr other ↦ ground arith
]

set_not_run : (c : Card) (m : List Card) → is_set m ≡ true → is_run (c ∷ m) ≡ false
set_not_run c m h = elim (Bool-cases (is_run (c ∷ m))) [
  | inl run ↦ absurd (set_repeats m h (is_run-Distinct (c ∷ m) run).1)
  | inr none_run ↦ none_run
]

-- A card with the rank of all cards of a run is not to be had.
run_not_longer_set : (c : Card) (m : List Card) → is_run m ≡ true → is_set (c ∷ m) ≡ false
unfolding is_set same_rank is_run
run_not_longer_set c [] h = absurd (ground arith)
run_not_longer_set c (x ∷ []) h = absurd (ground arith)
run_not_longer_set c (x ∷ y ∷ r) h = elim (Bool-cases (is_set (c ∷ x ∷ y ∷ r))) [
  | inl set ↦
      let first : x.rank ≡ c.rank = ground arith in
      let second : y.rank ≡ c.rank = ground arith in
      absurd ((is_run-Distinct (x ∷ y ∷ r) h).0.0 (ap (λ n. run_order n) (second ∙ sym first)))
  | inr none_set ↦ none_set
]

length-insert_card : (a : Card) (l : List Card) → length (insert_card a l) ≡ suc (length l)
unfolding insert_card
length-insert_card a [] = refl
length-insert_card a (d ∷ ds) = ground (arith, length-insert_card a ds)

length-sort_run : (l : List Card) → length (sort_run l) ≡ length l
unfolding sort_run
length-sort_run [] = refl
length-sort_run (c ∷ cs) = omega (arith, length-insert_card c (sort_run cs), length-sort_run cs)

at_end-sort_run :
    (c : Card) (m : List Card) → is_run m ≡ true → at_end c (sort_run m) ≡ is_run (c ∷ m)
unfolding is_run sort_run
at_end-sort_run c m h = longer (sort_run m) (ground arith) (ground arith) (length-sort_run m)
  where
    longer :
        (l : List Card)
        → run_sorted l ≡ true
        → ltb (length m) 3 ≡ false
        → length l ≡ length m
        → at_end c l ≡ (not (ltb (suc (length m)) 3) && run_sorted (insert_card c l))
    longer [] sorted long size = absurd (ground arith)
    longer (d ∷ ds) sorted long size = ground (arith, run_sorted-insert c d ds sorted)

-- A card attaches to a meld exactly if the two together are a meld.
pub can_attach-is_meld :
    (c : Card) (m : List Card) → is_meld m ≡ true → can_attach c m ≡ is_meld (c ∷ m)
unfolding is_meld can_attach
can_attach-is_meld c m h = elim (Bool-cases (is_set m)) [
  | inl set ↦ ground (arith, set, longer_set c m set, set_not_run c m set)
  | inr none_set ↦
      let run : is_run m ≡ true = ground arith in
      ground (arith, none_set, run, at_end-sort_run c m run, run_not_longer_set c m run)
]

insert_card_comm :
    (a c : Card) (l : List Card)
    → key a ≢ key c
    → insert_card a (insert_card c l) ≡ insert_card c (insert_card a l)
unfolding insert_card
insert_card_comm a c [] differ = ground arith
insert_card_comm a c (d ∷ ds) differ = ground (arith, insert_card_comm a c ds differ)

sort_run_append :
    (m : List Card) (c : Card)
    → Absent (key c) m
    → sort_run (m ++ c ∷ []) ≡ insert_card c (sort_run m)
unfolding sort_run
sort_run_append [] c absent = refl
sort_run_append (a ∷ m) c absent =
    ap (λ l. insert_card a l) (sort_run_append m c absent.1)
    ∙ insert_card_comm a c (sort_run m) absent.0

is_run-append : (c : Card) (m : List Card) → is_run (c ∷ m) ≡ true → is_run (m ++ c ∷ []) ≡ true
unfolding is_run sort_run
is_run-append c m h =
    let sorted = sort_run_append m c (is_run-Distinct (c ∷ m) h).0 in
    let size = length-append m (c ∷ []) in rw sorted (ground arith)

is_set-append : (c : Card) (m : List Card) → is_set (c ∷ m) ≡ true → is_set (m ++ c ∷ []) ≡ true
unfolding is_set same_rank
is_set-append c [] h = absurd (ground arith)
is_set-append c (x ∷ xs) h =
    let ranks : x.rank ≡ c.rank = ground arith in
    let all_c : same_rank c.rank xs ≡ true = ground arith in
    let all_x : same_rank x.rank xs ≡ true = subst (λ r. same_rank r xs ≡ true) (sym ranks) all_c in
    ground (arith, same_rank-append x.rank xs c, length-append xs (c ∷ []))

-- A meld that a card is put to the end of, where it attaches, is a meld.
pub is_meld-append :
    (c : Card) (m : List Card)
    → is_meld m ≡ true
    → can_attach c m ≡ true
    → is_meld (m ++ c ∷ []) ≡ true
unfolding is_meld
is_meld-append c m h fits =
    let together = sym (can_attach-is_meld c m h) ∙ fits in
    elim (Bool-cases (is_set (c ∷ m))) [
      | inl set ↦ ground (arith, is_set-append c m set)
      | inr none_set ↦
          let run : is_run (c ∷ m) ≡ true = ground arith in ground (arith, is_run-append c m run)
    ]
