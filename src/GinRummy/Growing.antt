-- ===== src/GinRummy/Growing.antt =====
-- The knocker's melds through the laying off of layoffs.go: a card that finds a meld grows it.
use terminal_card.Base.{
  ℕ, zero, suc, ◌+◌, ◌≡◌, sym, ap, ◌∙◌, subst, Bool, true, false, ◌&&◌, none, some, List, [], ◌∷◌,
  ◌++◌, inl, inr, arith, length, ◌==◌, Bool-cases, Option-cases,
}
use mathlib.Core.List.{append_assoc, append-nil}
use terminal_card.Deck.{Card}
use terminal_card.Deck.Bag.{count, count-append}
use terminal_card.GinRummy.Layoffs.{
  Layoffs, is_set, is_run, can_attach, find_kind, find_attach, attach, lay_round, lay_rounds,
}
use terminal_card.GinRummy.Fitting.{is_meld, can_attach-is_meld, is_meld-append}

unfoldable pub AllMelds : List (List Card) → Type 0
AllMelds [] = Unit
AllMelds (m ∷ ms) = (is_meld m ≡ true) × AllMelds ms

-- The card makes a meld with none of the melds.
unfoldable pub NoneFits : Card → List (List Card) → Type 0
NoneFits c [] = Unit
NoneFits c (m ∷ ms) = (is_meld (c ∷ m) ≡ false) × NoneFits c ms

-- Each meld is the one at its place with cards put to its end.
unfoldable pub Extends : List (List Card) → List (List Card) → Type 0
Extends [] [] = Unit
Extends [] (n ∷ ns) = ⊥
Extends (m ∷ ms) [] = ⊥
Extends (m ∷ ms) (n ∷ ns) = ((extra : List Card) × (n ≡ m ++ extra)) × Extends ms ns

unfoldable pub meld_count : Card → List (List Card) → ℕ
meld_count x [] = 0
meld_count x (m ∷ ms) = count x m + meld_count x ms

-- The card attaches to the meld at the index.
FitsAt : ℕ → Card → List (List Card) → Type 0
FitsAt i c [] = ⊥
FitsAt zero c (m ∷ ms) = can_attach c m ≡ true
FitsAt (suc i) c (m ∷ ms) = FitsAt i c ms

find_kind-FitsAt :
    (kind : List Card → Bool) (c : Card) (ms : List (List Card)) (i : ℕ)
    → find_kind kind c ms ≡ some i
    → FitsAt i c ms
unfolding find_kind FitsAt
find_kind-FitsAt kind c [] i found = absurd (ground arith)
find_kind-FitsAt kind c (m ∷ ms) i found = elim (Bool-cases (kind m && can_attach c m)) [
  | inl here ↦
      let first : 0 ≡ i = ground arith in subst (λ j. FitsAt j c (m ∷ ms)) first (ground arith)
  | inr past ↦ elim (Option-cases (find_kind kind c ms)) [
    | inl nowhere ↦ absurd (ground arith)
    | inr (j, later) ↦
        let next : suc j ≡ i = ground arith in
        subst (λ n. FitsAt n c (m ∷ ms)) next (find_kind-FitsAt kind c ms j later)
  ]
]

find_attach-FitsAt :
    (c : Card) (ms : List (List Card)) (i : ℕ) → find_attach c ms ≡ some i → FitsAt i c ms
unfolding find_attach
find_attach-FitsAt c ms i found = elim (Option-cases (find_kind is_run c ms)) [
  | inl no_run ↦ find_kind-FitsAt is_set c ms i (ground arith)
  | inr (j, run) ↦ find_kind-FitsAt is_run c ms i (ground arith)
]

find_kind-none :
    (kind : List Card → Bool) (c : Card) (m : List Card) (ms : List (List Card))
    → find_kind kind c (m ∷ ms) ≡ none
    → ((kind m && can_attach c m) ≡ false) × (find_kind kind c ms ≡ none)
unfolding find_kind
find_kind-none kind c m ms lost = elim (Option-cases (find_kind kind c ms)) [
  | inl nowhere ↦ (ground arith, nowhere)
  | inr (j, later) ↦ absurd (ground arith)
]

kinds-NoneFits :
    (c : Card) (ms : List (List Card))
    → AllMelds ms
    → find_kind is_run c ms ≡ none
    → find_kind is_set c ms ≡ none
    → NoneFits c ms
unfolding AllMelds NoneFits is_meld
kinds-NoneFits c [] melds no_run no_set = tt
kinds-NoneFits c (m ∷ ms) melds no_run no_set =
    let (run, runs) = find_kind-none is_run c m ms no_run in
    let (set, sets) = find_kind-none is_set c m ms no_set in
    let meld = melds.0 in
    let apart : can_attach c m ≡ false = ground arith in
    (sym (can_attach-is_meld c m melds.0) ∙ apart, kinds-NoneFits c ms melds.1 runs sets)

pub find_attach-NoneFits :
    (c : Card) (ms : List (List Card)) → AllMelds ms → find_attach c ms ≡ none → NoneFits c ms
unfolding find_attach
find_attach-NoneFits c ms melds lost = elim (Option-cases (find_kind is_run c ms)) [
  | inl no_run ↦ kinds-NoneFits c ms melds no_run (ground arith)
  | inr (j, run) ↦ absurd (ground arith)
]

attach-AllMelds :
    (i : ℕ) (c : Card) (ms : List (List Card))
    → FitsAt i c ms
    → AllMelds ms
    → AllMelds (attach i c ms)
unfolding attach AllMelds FitsAt
attach-AllMelds i c [] fits melds = tt
attach-AllMelds zero c (m ∷ ms) fits melds = (is_meld-append c m melds.0 fits, melds.1)
attach-AllMelds (suc i) c (m ∷ ms) fits melds = (melds.0, attach-AllMelds i c ms fits melds.1)

attach-Extends :
    (i : ℕ) (c : Card) (ks ms : List (List Card)) → Extends ks ms → Extends ks (attach i c ms)
unfolding attach Extends
attach-Extends i c [] [] grown = grown
attach-Extends i c [] (m ∷ ms) grown = elim grown [ ]
attach-Extends i c (k ∷ ks) [] grown = elim grown [ ]
attach-Extends zero c (k ∷ ks) (m ∷ ms) grown =
    let (extra, same) = grown.0 in
    ((extra ++ c ∷ [], ap (λ l. l ++ c ∷ []) same ∙ append_assoc k extra (c ∷ [])), grown.1)
attach-Extends (suc i) c (k ∷ ks) (m ∷ ms) grown = (grown.0, attach-Extends i c ks ms grown.1)

attach-meld_count :
    (x : Card) (i : ℕ) (c : Card) (ms : List (List Card))
    → FitsAt i c ms
    → meld_count x (attach i c ms) ≡ meld_count x ms + count x (c ∷ [])
unfolding attach meld_count FitsAt
attach-meld_count x i c [] fits = elim fits [ ]
attach-meld_count x zero c (m ∷ ms) fits = omega (arith, count-append x m (c ∷ []))
attach-meld_count x (suc i) c (m ∷ ms) fits = omega (arith, attach-meld_count x i c ms fits)

pub Extends-refl : (ms : List (List Card)) → Extends ms ms
unfolding Extends
Extends-refl [] = tt
Extends-refl (m ∷ ms) = (([], sym (append-nil m)), Extends-refl ms)

-- The melds of a layoff are the knocker's, grown by the cards laid off, and are melds.
pub record IsGrown (knocker : List (List Card)) (l : Layoffs) : Type 0 where
  pub melds : AllMelds l.melds
  pub extended : Extends knocker l.melds
  pub counted : (x : Card) → meld_count x l.melds ≡ meld_count x knocker + count x l.laid_off

lay_round-IsGrown :
    (knocker : List (List Card)) (cs : List Card) (l : Layoffs)
    → IsGrown knocker l
    → IsGrown knocker (lay_round cs l)
unfolding lay_round
lay_round-IsGrown knocker [] l h = h
lay_round-IsGrown knocker (c ∷ cs) l h = elim (Option-cases (find_attach c l.melds)) [
  | inl stuck ↦
      rw (stuck, lay_round)
        (lay_round-IsGrown knocker cs (record l { remaining = l.remaining ++ c ∷ [] })
          (record { melds = h.melds; extended = h.extended; counted = h.counted }))
  | inr (i, found) ↦
      let fits = find_attach-FitsAt c l.melds i found in
      rw (found, lay_round)
        (lay_round-IsGrown knocker cs
          (record l { melds = attach i c l.melds; laid_off = l.laid_off ++ c ∷ [] })
          (record {
            melds = attach-AllMelds i c l.melds fits h.melds;
            extended = attach-Extends i c knocker l.melds h.extended;
            counted = λ x. omega (
              arith,
              attach-meld_count x i c l.melds fits,
              h.counted x,
              count-append x l.laid_off (c ∷ []),
            );
          }))
]

pub lay_rounds-IsGrown :
    (knocker : List (List Card)) (fuel : ℕ) (l : Layoffs)
    → IsGrown knocker l
    → IsGrown knocker (lay_rounds fuel l)
unfolding lay_rounds
lay_rounds-IsGrown knocker zero l h = h
lay_rounds-IsGrown knocker (suc fuel) l h =
    let start : Layoffs = record l { remaining = [] } in
    let next = lay_round l.remaining start in
    let grown =
      lay_round-IsGrown knocker l.remaining start
        (record { melds = h.melds; extended = h.extended; counted = h.counted }) in
    elim (Bool-cases (length next.remaining == length l.remaining)) [
      | inl same ↦ rw (same, lay_rounds) grown
      | inr changed ↦ rw (changed, lay_rounds) (lay_rounds-IsGrown knocker fuel next grown)
    ]
