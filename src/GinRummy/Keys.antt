-- ===== src/GinRummy/Keys.antt =====
-- Melds by the order of their ranks: in a run, each card has an order of its own.
use terminal_card.Base.{
  ℕ, ◌+◌, ◌<◌, ◌≤◌, ◌≡◌, ◌≢◌, sym, true, List, [], ◌∷◌, inl, inr, arith, Bool-cases, leb,
}
use terminal_card.Deck.{Card, run_order}
use terminal_card.GinRummy.Layoffs.{insert_card, sort_run, follows, run_sorted, is_run}

abbrev pub key : Card → ℕ
key c = run_order c.rank

-- No card has the key.
abbrev pub Absent : ℕ → List Card → Type 0
Absent v [] = Unit
Absent v (c ∷ cs) = (key c ≢ v) × Absent v cs

abbrev pub Distinct : List Card → Type 0
Distinct [] = Unit
Distinct (c ∷ cs) = Absent (key c) cs × Distinct cs

abbrev pub Above : ℕ → List Card → Type 0
Above v [] = Unit
Above v (c ∷ cs) = (v < key c) × Above v cs

Above-lower : (v w : ℕ) (cs : List Card) → v ≤ w → Above w cs → Above v cs
Above-lower v w [] h a = tt
Above-lower v w (c ∷ cs) h a = (omega (arith, a.0), Above-lower v w cs h a.1)

Above-Absent : (v : ℕ) (cs : List Card) → Above v cs → Absent v cs
Above-Absent v [] a = tt
Above-Absent v (c ∷ cs) a = ((λ e. absurd (omega (arith, a.0))), Above-Absent v cs a.1)

follows-Above : (suit : ℕ) (d : Card) (cs : List Card) → follows suit d cs ≡ true → Above (key d) cs
unfolding follows
follows-Above suit d [] h = tt
follows-Above suit d (c ∷ cs) h =
    let up : key c ≡ key d + 1 = ground arith in
    let rest : follows suit c cs ≡ true = ground arith in
    (omega arith, Above-lower (key d) (key c) cs (omega arith) (follows-Above suit c cs rest))

follows-Distinct : (suit : ℕ) (d : Card) (cs : List Card) → follows suit d cs ≡ true → Distinct cs
unfolding follows
follows-Distinct suit d [] h = tt
follows-Distinct suit d (c ∷ cs) h =
    let rest : follows suit c cs ≡ true = ground arith in
    (Above-Absent (key c) cs (follows-Above suit c cs rest), follows-Distinct suit c cs rest)

run_sorted-Distinct : (l : List Card) → run_sorted l ≡ true → Distinct l
unfolding run_sorted
run_sorted-Distinct [] h = tt
run_sorted-Distinct (c ∷ cs) h =
    (Above-Absent (key c) cs (follows-Above c.suit c cs h), follows-Distinct c.suit c cs h)

Absent-insert :
    (v : ℕ) (a : Card) (l : List Card) → Absent v (insert_card a l) → (key a ≢ v) × Absent v l
unfolding insert_card
Absent-insert v a [] h = h
Absent-insert v a (d ∷ ds) h = elim (Bool-cases (leb (run_order a.rank) (run_order d.rank))) [
  | inl low ↦ simp low at h
  | inr high ↦
      let h' = simp high at h in let rest = Absent-insert v a ds h'.1 in (rest.0, (h'.0, rest.1))
]

Distinct-insert :
    (a : Card) (l : List Card) → Distinct (insert_card a l) → Absent (key a) l × Distinct l
unfolding insert_card
Distinct-insert a [] h = h
Distinct-insert a (d ∷ ds) h = elim (Bool-cases (leb (run_order a.rank) (run_order d.rank))) [
  | inl low ↦ simp low at h
  | inr high ↦
      let h' = simp high at h in
      let below = Absent-insert (key d) a ds h'.0 in
      let rest = Distinct-insert a ds h'.1 in (((λ e. below.0 (sym e)), rest.0), (below.1, rest.1))
]

Absent-sort : (v : ℕ) (l : List Card) → Absent v (sort_run l) → Absent v l
unfolding sort_run
Absent-sort v [] h = tt
Absent-sort v (c ∷ cs) h =
    let split = Absent-insert v c (sort_run cs) h in (split.0, Absent-sort v cs split.1)

Distinct-sort : (l : List Card) → Distinct (sort_run l) → Distinct l
unfolding sort_run
Distinct-sort [] h = tt
Distinct-sort (c ∷ cs) h =
    let split = Distinct-insert c (sort_run cs) h in
    (Absent-sort (key c) cs split.0, Distinct-sort cs split.1)

pub is_run-Distinct : (m : List Card) → is_run m ≡ true → Distinct m
unfolding is_run
is_run-Distinct m h = Distinct-sort m (run_sorted-Distinct (sort_run m) (ground arith))
