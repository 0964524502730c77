-- ===== src/Poker/Chips/Cutting.antt =====
-- The side pots hold what was contributed, each has somebody to win it, and cutting them never fails
-- while a contender has chips in.
use terminal_card.Base.{
  ℕ, suc, ◌+◌, ◌<◌, ◌≤◌, ◌≡◌, refl, ap, ◌∙◌, ◌⊎◌, inl, inr, true, some, List, [], ◌∷◌, ◌++◌, arith,
  length, length-append, All, Bool-cases, ltb,
}
use terminal_card.Base.Words.{u64_mod, u_add, u_add_exact}
use terminal_card.Base.GoMap.{GoMap, total}
use terminal_card.Game.{Player, contains_id}
use terminal_card.Poker.{State, Pot}
use terminal_card.Poker.Pots.{
  Cut, insert_sorted, sorted, levels, layer_amount, layer_eligible, add_layer, cut_layers,
  add_to_last, close_cut, build_side_pots,
}
use terminal_card.Poker.Chips.Layers.{
  IsAscending, AllCovered, AllCovered-next, layer_sum-excess, layer_amount-sum, excess, excess-zero,
}
use terminal_card.Poker.Chips.Levels.{levels-IsAscending, levels-AllCovered}

-- The chips in a list of pots, as a number without a bound.
unfoldable pub pots_total : List Pot → ℕ
pots_total [] = 0
pots_total (p ∷ ps) = p.amount + pots_total ps

-- Each pot has a player to win it.
abbrev pub AllWinnable : List Pot → Type 0
AllWinnable = All (λ p. 0 < length p.eligible)

-- Somebody in `live` contributed more than `lo`.
abbrev pub HasContender : ℕ → List Player → GoMap ℕ → Type 0
HasContender lo live [] = ⊥
HasContender lo live ((k, c) ∷ m) =
    ((contains_id k live ≡ true) × (lo < c)) ⊎ HasContender lo live m

pots_total-nil : pots_total [] ≡ 0
unfolding pots_total
pots_total-nil = refl

pots_total-append : (ps qs : List Pot) → pots_total (ps ++ qs) ≡ pots_total ps + pots_total qs
unfolding pots_total
pots_total-append [] qs = omega arith
pots_total-append (p ∷ ps) qs = omega (arith, pots_total-append ps qs)

AllWinnable-append : (ps qs : List Pot) → AllWinnable ps → AllWinnable qs → AllWinnable (ps ++ qs)
AllWinnable-append [] qs h k = k
AllWinnable-append (p ∷ ps) qs h k = (h.0, AllWinnable-append ps qs h.1 k)

length-insert_sorted : (a : ℕ) (s : List ℕ) → length (insert_sorted a s) ≡ suc (length s)
unfolding insert_sorted
length-insert_sorted a [] = refl
length-insert_sorted a (b ∷ bs) = ground (arith, length-insert_sorted a bs)

pub length-sorted : (s : List ℕ) → length (sorted s) ≡ length s
unfolding sorted
length-sorted [] = refl
length-sorted (a ∷ as') = length-insert_sorted a (sorted as') ∙ ap suc (length-sorted as')

-- A layer adds its amount to the cut, in place of the dead money carried to it.
add_layer_total :
    (amount : ℕ) (es : List ℕ) (cut : Cut)
    → pots_total (add_layer amount es cut).pots + (add_layer amount es cut).orphan
      ≡ pots_total cut.pots + amount
unfolding add_layer pots_total
add_layer_total amount [] cut = refl
add_layer_total amount (e ∷ es) cut =
    let p : Pot = record { amount = amount; eligible = sorted (e ∷ es) } in
    omega (arith, pots_total-append cut.pots (p ∷ []))

add_layer-AllWinnable :
    (amount : ℕ) (es : List ℕ) (cut : Cut)
    → AllWinnable cut.pots
    → AllWinnable (add_layer amount es cut).pots
unfolding add_layer
add_layer-AllWinnable amount [] cut h = h
add_layer-AllWinnable amount (e ∷ es) cut h =
    AllWinnable-append cut.pots _ h (omega (arith, length-sorted (e ∷ es)), tt)

excess_covered : (lo : ℕ) (m : GoMap ℕ) → AllCovered lo [] m → excess lo m ≡ 0
unfolding excess
excess_covered lo [] h = refl
excess_covered lo ((k, c) ∷ m) h = omega (arith, excess_covered lo m h.1)

-- The loop over the levels distributes what lies above the level it starts from.
cut_layers_total :
    (live : List Player) (m : GoMap ℕ) (lo : ℕ) (ls : List ℕ) (cut : Cut)
    → IsAscending lo ls
    → AllCovered lo ls m
    → pots_total cut.pots + cut.orphan + excess lo m < u64_mod
    → pots_total (cut_layers live m lo ls cut).pots + (cut_layers live m lo ls cut).orphan
      ≡ pots_total cut.pots + cut.orphan + excess lo m
unfolding cut_layers
cut_layers_total live m lo [] cut up cov fits = omega (arith, excess_covered lo m cov)
cut_layers_total live m lo (a ∷ ls) cut up cov fits =
    let sum = layer_sum-excess lo a ls m up.0 cov in
    let layer = layer_amount-sum lo a 0 m up.0 up.1 (omega arith) in
    let with_orphan = u_add_exact (layer_amount lo a m 0) cut.orphan (omega arith) in
    let amount = u_add (layer_amount lo a m 0) cut.orphan in
    let es = layer_eligible a live m in
    let added = add_layer_total amount es cut in
    cut_layers_total live m a ls (add_layer amount es cut) up.2
      (AllCovered-next lo a ls m up.0 up.2 cov) (omega arith)
    ∙ omega arith

cut_layers-AllWinnable :
    (live : List Player) (m : GoMap ℕ) (lo : ℕ) (ls : List ℕ) (cut : Cut)
    → AllWinnable cut.pots
    → AllWinnable (cut_layers live m lo ls cut).pots
unfolding cut_layers
cut_layers-AllWinnable live m lo [] cut h = h
cut_layers-AllWinnable live m lo (a ∷ ls) cut h =
    cut_layers-AllWinnable live m a ls _ (add_layer-AllWinnable _ (layer_eligible a live m) cut h)

-- Pots are only ever added.
add_layer-grows :
    (amount : ℕ) (es : List ℕ) (cut : Cut) → length cut.pots ≤ length (add_layer amount es cut).pots
unfolding add_layer
add_layer-grows amount [] cut = omega arith
add_layer-grows amount (e ∷ es) cut = omega (arith, length-append {0} cut.pots)

cut_layers-grows :
    (live : List Player) (m : GoMap ℕ) (lo : ℕ) (ls : List ℕ) (cut : Cut)
    → length cut.pots ≤ length (cut_layers live m lo ls cut).pots
unfolding cut_layers
cut_layers-grows live m lo [] cut = omega arith
cut_layers-grows live m lo (a ∷ ls) cut =
    let next = add_layer (u_add (layer_amount lo a m 0) cut.orphan) (layer_eligible a live m) cut in
    omega (
      arith,
      add_layer-grows (u_add (layer_amount lo a m 0) cut.orphan) (layer_eligible a live m) cut,
      cut_layers-grows live m a ls next,
    )

-- A contender with chips above `lo` may win the first layer above it.
layer_eligible-contender :
    (live : List Player) (m : GoMap ℕ) (lo a : ℕ) (ls : List ℕ)
    → AllCovered lo (a ∷ ls) m
    → HasContender lo live m
    → 0 < length (layer_eligible a live m)
unfolding layer_eligible
layer_eligible-contender live [] lo a ls cov h = absurd h
layer_eligible-contender live ((k, c) ∷ m) lo a ls cov (inl (sits, above)) = ground arith
layer_eligible-contender live ((k, c) ∷ m) lo a ls cov (inr later) =
    ground (arith, layer_eligible-contender live m lo a ls cov.1 later)

add_layer_first :
    (amount : ℕ) (es : List ℕ) (cut : Cut)
    → 0 < length es
    → 0 < length (add_layer amount es cut).pots
unfolding add_layer
add_layer_first amount [] cut h = absurd (omega arith)
add_layer_first amount (e ∷ es) cut h = omega (arith, length-append {0} cut.pots)

cut_layers_some :
    (live : List Player) (m : GoMap ℕ) (lo : ℕ) (ls : List ℕ) (cut : Cut)
    → AllCovered lo ls m
    → HasContender lo live m
    → 0 < length (cut_layers live m lo ls cut).pots
unfolding cut_layers
cut_layers_some live m lo [] cut cov h = absurd (uncovered m cov h)
  where
    uncovered : (m' : GoMap ℕ) → AllCovered lo [] m' → HasContender lo live m' → ⊥
    uncovered [] cov' h' = h'
    uncovered ((k, c) ∷ m') cov' (inl (_, above)) = omega arith
    uncovered ((k, c) ∷ m') cov' (inr later) = uncovered m' cov'.1 later
cut_layers_some live m lo (a ∷ ls) cut cov h =
    let amount = u_add (layer_amount lo a m 0) cut.orphan in
    let es = layer_eligible a live m in
    omega (
      arith,
      add_layer_first amount es cut (layer_eligible-contender live m lo a ls cov h),
      cut_layers-grows live m a ls (add_layer amount es cut),
    )

-- What a settled cut gives.
pub record IsCut (m : GoMap ℕ) (pots : List Pot) : Type 0 where
  pub whole : pots_total pots ≡ total m
  pub winnable : AllWinnable pots

add_to_last_total :
    (orphan : ℕ) (p : Pot) (ps : List Pot)
    → pots_total (p ∷ ps) + orphan < u64_mod
    → AllWinnable (p ∷ ps)
    → (qs : List Pot) × (add_to_last orphan (p ∷ ps) ≡ some qs)
      × (pots_total qs ≡ pots_total (p ∷ ps) + orphan)
      × AllWinnable qs
unfolding add_to_last pots_total
add_to_last_total orphan p [] h w =
    let sum = u_add_exact p.amount orphan (omega arith) in
    (record p { amount = u_add p.amount orphan } ∷ [], refl, omega arith, w)
add_to_last_total orphan p (q ∷ ps) h w =
    let (qs, e, sum, ws) = add_to_last_total orphan q ps (omega arith) w.1 in
    (p ∷ qs, rw (e, add_to_last), omega arith, (w.0, ws))

close_pots :
    (orphan : ℕ) (pots : List Pot)
    → 0 < length pots
    → pots_total pots + orphan < u64_mod
    → AllWinnable pots
    → (qs : List Pot) × (add_to_last orphan pots ≡ some qs)
      × (pots_total qs ≡ pots_total pots + orphan)
      × AllWinnable qs
close_pots orphan [] some_pot h w = absurd (omega arith)
close_pots orphan (p ∷ ps) some_pot h w = add_to_last_total orphan p ps h w

close_cut-IsCut :
    (m : GoMap ℕ) (cut : Cut)
    → 0 < length cut.pots
    → pots_total cut.pots + cut.orphan ≡ total m
    → total m < u64_mod
    → AllWinnable cut.pots
    → (qs : List Pot) × (close_cut cut ≡ some qs) × IsCut m qs
unfolding close_cut
close_cut-IsCut m cut some_pot whole fits w = elim (Bool-cases (ltb 0 cut.orphan)) [
  | inl dead ↦
      let (qs, e, sum, ws) = close_pots cut.orphan cut.pots some_pot (omega arith) w in
      (qs, simp dead e, record { whole = sum ∙ whole; winnable = ws })
  | inr clean ↦ (cut.pots, simp clean refl, record { whole = ground arith; winnable = w })
]

-- While the contributions fit in a uint and a live player has chips in, cutting the pots succeeds,
-- the pots hold exactly what was contributed, and each has an eligible player.
pub build_side_pots-IsCut :
    (x : State) (live : List Player)
    → total x.total_contributed < u64_mod
    → HasContender 0 live x.total_contributed
    → (pots : List Pot) × (build_side_pots x live ≡ some pots) × IsCut x.total_contributed pots
unfolding build_side_pots
build_side_pots-IsCut x live fits h =
    let m = x.total_contributed in
    let start : Cut = record { pots = []; orphan = 0 } in
    let cut = cut_layers live m 0 (levels m) start in
    let covered = levels-AllCovered m fits in
    let sum =
      cut_layers_total live m 0 (levels m) start (levels-IsAscending m fits) covered
        (omega (arith, pots_total-nil, excess-zero m)) in
    let whole : pots_total cut.pots + cut.orphan ≡ total m =
      omega (arith, sum, pots_total-nil, excess-zero m) in
    close_cut-IsCut m cut (cut_layers_some live m 0 (levels m) start covered h) whole fits
      (cut_layers-AllWinnable live m 0 (levels m) start tt)
