-- ===== src/GinRummy/Layoffs.antt =====
-- internal/game/ginrummy/layoffs.go, and isSet, isRun, bestMeldSplitAgainst of melds.go: what a defender
-- lays off onto the knocker's melds.
use terminal_card.Base.{
  ℕ, zero, suc, ◌+◌, Bool, true, false, not, ◌&&◌, ◌||◌, Option, none, some, List, [], ◌∷◌, ◌++◌,
  ◌==◌, ltb, leb, if◌then◌else◌, length,
}
use terminal_card.Deck.{Card, no_card, run_order}
use terminal_card.GinRummy.{Split, best_split_by, sum_deadwood}

unfoldable pub same_rank : ℕ → List Card → Bool
same_rank rank [] = true
same_rank rank (c ∷ cs) = c.rank == rank && same_rank rank cs

unfoldable pub is_set : List Card → Bool
unfolding same_rank
is_set [] = false
is_set (c ∷ cs) = not (ltb (length (c ∷ cs)) 3 || ltb 4 (length (c ∷ cs))) && same_rank c.rank cs

-- slices.SortFunc by ascending RunOrder.
unfoldable pub insert_card : Card → List Card → List Card
unfolding run_order
insert_card c [] = c ∷ []
insert_card c (d ∷ ds) =
    if leb (run_order c.rank) (run_order d.rank) then c ∷ d ∷ ds else d ∷ insert_card c ds

unfoldable pub sort_run : List Card → List Card
unfolding insert_card
sort_run [] = []
sort_run (c ∷ cs) = insert_card c (sort_run cs)

-- Each card has the suit, and follows the one before it.
unfoldable pub follows : ℕ → Card → List Card → Bool
unfolding run_order
follows suit last [] = true
follows suit last (c ∷ cs) =
    c.suit == suit && run_order c.rank == run_order last.rank + 1 && follows suit c cs

unfoldable pub run_sorted : List Card → Bool
unfolding follows
run_sorted [] = true
run_sorted (c ∷ cs) = follows c.suit c cs

unfoldable pub is_run : List Card → Bool
unfolding sort_run run_sorted
is_run meld = not (ltb (length meld) 3) && run_sorted (sort_run meld)

unfoldable pub head_card : List Card → Card
head_card [] = no_card
head_card (c ∷ cs) = c

unfoldable pub last_card : Card → List Card → Card
last_card c [] = c
last_card c (d ∷ ds) = last_card d ds

-- The ends of a sorted run: v == lo-1 || v == hi+1, on int.
unfoldable pub at_end : Card → List Card → Bool
unfolding last_card run_order
at_end card [] = false
at_end card (c ∷ cs) =
    card.suit == c.suit
    && (run_order card.rank + 1 == run_order c.rank
        || run_order card.rank == run_order (last_card c cs).rank + 1)

unfoldable pub can_attach : Card → List Card → Bool
unfolding is_set is_run sort_run at_end head_card
can_attach card meld =
    if is_set meld
    then ltb (length meld) 4 && card.rank == (head_card meld).rank
    else is_run meld && at_end card (sort_run meld)

-- The index of the first meld of a kind that the card attaches to.
unfoldable pub find_kind : (List Card → Bool) → Card → List (List Card) → Option ℕ
unfolding can_attach
find_kind kind card [] = none
find_kind kind card (m ∷ ms) =
    let rest = find_kind kind card ms in
    if kind m && can_attach card m
    then some 0
    else (elim rest [ none ↦ none | some i ↦ some (suc i) ])

unfoldable pub find_attach : Card → List (List Card) → Option ℕ
unfolding find_kind is_run is_set
find_attach card melds = elim (find_kind is_run card melds) [
  | some i ↦ some i
  | none ↦ find_kind is_set card melds
]

-- melds[idx] = append(melds[idx], card)
unfoldable pub attach : ℕ → Card → List (List Card) → List (List Card)
attach i card [] = []
attach zero card (m ∷ ms) = (m ++ card ∷ []) ∷ ms
attach (suc i) card (m ∷ ms) = m ∷ attach i card ms

pub record Layoffs : Type 0 where
  pub melds : List (List Card)
  pub remaining : List Card
  pub laid_off : List Card

-- One round of the outer loop: the cards before `i` are kept in `remaining`, the rest is still to try.
unfoldable pub lay_round : List Card → Layoffs → Layoffs
unfolding find_attach attach
lay_round [] l = l
lay_round (c ∷ cs) l = lay_round cs (elim (find_attach c l.melds) [
  | none ↦ record l { remaining = l.remaining ++ c ∷ [] }
  | some i ↦ record l { melds = attach i c l.melds; laid_off = l.laid_off ++ c ∷ [] }
])

-- The outer loop, with `fuel` rounds at most: it ends after a round that lays nothing off.
unfoldable pub lay_rounds : ℕ → Layoffs → Layoffs
unfolding lay_round
lay_rounds zero l = l
lay_rounds (suc fuel) l =
    let next = lay_round l.remaining (record l { remaining = [] }) in
    elim (length next.remaining == length l.remaining) [
      | true ↦ next
      | false ↦ lay_rounds fuel next
    ]

unfoldable pub apply_layoffs : List Card → List (List Card) → Layoffs
unfolding lay_rounds
apply_layoffs deadwood knocker_melds =
    lay_rounds (suc (length deadwood))
      (record { melds = knocker_melds; remaining = deadwood; laid_off = [] })

unfoldable pub best_meld_split_against : List Card → List (List Card) → Split
unfolding apply_layoffs best_split_by sum_deadwood
best_meld_split_against hand knocker_melds =
    best_split_by hand (λ dw. sum_deadwood (apply_layoffs dw knocker_melds).remaining)
