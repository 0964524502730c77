-- ===== src/GinRummy/Settled.antt =====
-- The laying off of layoffs.go as a whole: its rounds end, and what they end with.
use terminal_card.Base.{
  ℕ, zero, suc, ◌+◌, ◌<◌, ◌≤◌, ◌≡◌, refl, sym, ap, ◌∙◌, subst, none, some, List, [], ◌∷◌, ◌++◌,
  ◌==◌, inl, inr, length, arith, Bool-cases, Option-cases, length-append,
}
use mathlib.Core.List.{append_assoc, append-nil}
use terminal_card.Deck.{Card}
use terminal_card.Deck.Bag.{count, count-append}
use terminal_card.GinRummy.Growing.{
  AllMelds, NoneFits, IsGrown, Extends-refl, find_attach-NoneFits, lay_rounds-IsGrown,
}
use terminal_card.GinRummy.Layoffs.{
  Layoffs, find_attach, attach, lay_round, lay_rounds, apply_layoffs,
}

-- No card of the list finds a meld.
unfoldable IsStuck : List (List Card) → List Card → Type 0
IsStuck melds [] = Unit
IsStuck melds (c ∷ cs) = (find_attach c melds ≡ none) × IsStuck melds cs

-- A round keeps at most the cards it starts from.
lay_round-length :
    (cs : List Card) (l : Layoffs)
    → length (lay_round cs l).remaining ≤ length l.remaining + length cs
unfolding lay_round
lay_round-length [] l = omega arith
lay_round-length (c ∷ cs) l = elim (Option-cases (find_attach c l.melds)) [
  | inl stuck ↦
      let kept = record l { remaining = l.remaining ++ c ∷ [] } in
      let rest = lay_round-length cs kept in
      let one = length-append l.remaining (c ∷ []) in rw (stuck, lay_round) (omega arith)
  | inr (i, fits) ↦
      let grown = record l { melds = attach i c l.melds; laid_off = l.laid_off ++ c ∷ [] } in
      let rest = lay_round-length cs grown in rw (fits, lay_round) (omega arith)
]

lay_round-stuck :
    (c : Card) (cs : List Card) (l : Layoffs)
    → find_attach c l.melds ≡ none
    → lay_round (c ∷ cs) l ≡ lay_round cs (record l { remaining = l.remaining ++ c ∷ [] })
unfolding lay_round
lay_round-stuck c cs l stuck = rw (stuck, lay_round) refl

lay_round-fits :
    (c : Card) (cs : List Card) (l : Layoffs) (i : ℕ)
    → find_attach c l.melds ≡ some i
    → lay_round (c ∷ cs) l
      ≡ lay_round cs (record l { melds = attach i c l.melds; laid_off = l.laid_off ++ c ∷ [] })
unfolding lay_round
lay_round-fits c cs l i fits = rw (fits, lay_round) refl

-- A round that keeps every card changes no meld.
lay_round_idle :
    (cs : List Card) (l : Layoffs)
    → length (lay_round cs l).remaining ≡ length l.remaining + length cs
    → IsStuck l.melds cs
      × ((lay_round cs l).melds ≡ l.melds)
      × ((lay_round cs l).remaining ≡ l.remaining ++ cs)
unfolding lay_round IsStuck
lay_round_idle [] l kept = (tt, refl, sym (append-nil l.remaining))
lay_round_idle (c ∷ cs) l kept = elim (Option-cases (find_attach c l.melds)) [
  | inl stuck ↦
      let l' = record l { remaining = l.remaining ++ c ∷ [] } in
      let same = lay_round-stuck c cs l stuck in
      let one = length-append l.remaining (c ∷ []) in
      let short = ap (λ (r : Layoffs). length r.remaining) same in
      let rest = lay_round_idle cs l' (omega arith) in
      (
        (stuck, rest.0),
        ap (λ (r : Layoffs). r.melds) same ∙ rest.1,
        ap (λ (r : Layoffs). r.remaining) same ∙ rest.2 ∙ append_assoc l.remaining (c ∷ []) cs,
      )
  | inr (i, fits) ↦
      let same = lay_round-fits c cs l i fits in
      let short = ap (λ (r : Layoffs). length r.remaining) same in
      let fewer =
        lay_round-length cs
          (record l { melds = attach i c l.melds; laid_off = l.laid_off ++ c ∷ [] }) in
      absurd (omega arith)
]

lay_round-count :
    (x : Card) (cs : List Card) (l : Layoffs)
    → count x (lay_round cs l).remaining + count x (lay_round cs l).laid_off
      ≡ count x l.remaining + count x l.laid_off + count x cs
unfolding lay_round count
lay_round-count x [] l = omega arith
lay_round-count x (c ∷ cs) l = elim (Option-cases (find_attach c l.melds)) [
  | inl stuck ↦
      let kept = record l { remaining = l.remaining ++ c ∷ [] } in
      rw (stuck, lay_round)
        (omega (arith, lay_round-count x cs kept, count-append x l.remaining (c ∷ [])))
  | inr (i, fits) ↦
      let grown = record l { melds = attach i c l.melds; laid_off = l.laid_off ++ c ∷ [] } in
      rw (fits, lay_round)
        (omega (arith, lay_round-count x cs grown, count-append x l.laid_off (c ∷ [])))
]

-- With more rounds than cards that are left, the rounds end in one that lays nothing off.
lay_rounds-IsStuck :
    (fuel : ℕ) (l : Layoffs)
    → length l.remaining < fuel
    → IsStuck (lay_rounds fuel l).melds (lay_rounds fuel l).remaining
unfolding lay_rounds
lay_rounds-IsStuck zero l enough = absurd (omega arith)
lay_rounds-IsStuck (suc fuel) l enough =
    let next = lay_round l.remaining (record l { remaining = [] }) in
    let fewer = lay_round-length l.remaining (record l { remaining = [] }) in
    elim (Bool-cases (length next.remaining == length l.remaining)) [
      | inl same ↦
          let idle = lay_round_idle l.remaining (record l { remaining = [] }) (ground arith) in
          rw (same, lay_rounds)
            (subst (λ m. IsStuck m next.remaining) (sym idle.1)
              (subst (IsStuck l.melds) (sym idle.2) idle.0))
      | inr changed ↦ rw (changed, lay_rounds) (lay_rounds-IsStuck fuel next (ground arith))
    ]

lay_rounds-count :
    (x : Card) (fuel : ℕ) (l : Layoffs)
    → count x (lay_rounds fuel l).remaining + count x (lay_rounds fuel l).laid_off
      ≡ count x l.remaining + count x l.laid_off
unfolding lay_rounds count
lay_rounds-count x zero l = refl
lay_rounds-count x (suc fuel) l =
    let next = lay_round l.remaining (record l { remaining = [] }) in
    let once = lay_round-count x l.remaining (record l { remaining = [] }) in
    elim (Bool-cases (length next.remaining == length l.remaining)) [
      | inl same ↦ rw (same, lay_rounds) (omega arith)
      | inr changed ↦ rw (changed, lay_rounds) (omega (arith, lay_rounds-count x fuel next))
    ]

-- None of the cards makes a meld with one of the melds.
unfoldable pub IsSettled : List (List Card) → List Card → Type 0
IsSettled melds [] = Unit
IsSettled melds (c ∷ cs) = NoneFits c melds × IsSettled melds cs

IsStuck-IsSettled :
    (melds : List (List Card)) (cs : List Card)
    → AllMelds melds
    → IsStuck melds cs
    → IsSettled melds cs
unfolding IsStuck IsSettled
IsStuck-IsSettled melds [] all stuck = tt
IsStuck-IsSettled melds (c ∷ cs) all stuck =
    (find_attach-NoneFits c melds all stuck.0, IsStuck-IsSettled melds cs all stuck.1)

-- The end of laying `deadwood` off onto `knocker`.
pub record IsLaidOff (deadwood : List Card) (knocker : List (List Card)) (l : Layoffs)
    : Type 0 where
  pub grown : IsGrown knocker l
  pub settled : IsSettled l.melds l.remaining
  pub kept : (x : Card) → count x l.remaining + count x l.laid_off ≡ count x deadwood

-- Where each of the knocker's melds is a set or a run, laying off ends with melds that are each a set or
-- a run, and the knocker's with cards put to their ends, the cards put there being those laid off, as
-- often as laid off; with no card left that makes a set or a run together with one of the melds so grown;
-- and with every card of the deadwood, as often as it was there, either left or laid off.
pub apply_layoffs-IsSettled :
    (deadwood : List Card) (knocker_melds : List (List Card))
    → AllMelds knocker_melds
    → IsLaidOff deadwood knocker_melds (apply_layoffs deadwood knocker_melds)
unfolding apply_layoffs count
apply_layoffs-IsSettled deadwood knocker_melds all =
    let start : Layoffs = record { melds = knocker_melds; remaining = deadwood; laid_off = [] } in
    let grown =
      lay_rounds-IsGrown knocker_melds (suc (length deadwood)) start (record {
        melds = all;
        extended = Extends-refl knocker_melds;
        counted = λ x. omega arith;
      }) in
    record {
      grown = grown;
      settled =
          IsStuck-IsSettled _ _ grown.melds
            (lay_rounds-IsStuck (suc (length deadwood)) start (omega arith));
      kept = λ x. omega (arith, lay_rounds-count x (suc (length deadwood)) start);
    }
