-- ===== src/Poker/Chips/Layers.antt =====
-- The levels at which the pots are cut: each contribution is a sum of whole layers.
use terminal_card.Base.{
  ℕ, ◌+◌, ◌-◌, ◌<◌, ◌≤◌, ◌≡◌, refl, ◌⊎◌, inl, inr, List, [], ◌∷◌, arith, Bool-cases, if◌then◌else◌,
  ltb,
}
use terminal_card.Base.Words.{u64_mod, u_add, u_sub, u_add_exact, u_sub_exact}
use terminal_card.Base.GoMap.{GoMap, total}
use terminal_card.Poker.Pots.{layer_amount}

-- Ascending, from `lo` on; and strictly so, from above `lo`, within a uint.
abbrev pub IsSorted : ℕ → List ℕ → Type 0
IsSorted lo [] = Unit
IsSorted lo (a ∷ as') = (lo ≤ a) × IsSorted a as'

abbrev pub IsAscending : ℕ → List ℕ → Type 0
IsAscending lo [] = Unit
IsAscending lo (a ∷ as') = (lo < a) × (a < u64_mod) × IsAscending a as'

abbrev pub OneOf : ℕ → List ℕ → Type 0
OneOf c [] = ⊥
OneOf c (a ∷ as') = (c ≡ a) ⊎ OneOf c as'

-- A contribution above `lo` reaches whole levels only: it is at least the first, and so on.
abbrev pub IsCovered : ℕ → ℕ → List ℕ → Type 0
IsCovered c lo [] = c ≤ lo
IsCovered c lo (a ∷ as') = (c ≤ lo) ⊎ ((a ≤ c) × IsCovered c a as')

abbrev pub AllCovered : ℕ → List ℕ → GoMap ℕ → Type 0
AllCovered lo ls [] = Unit
AllCovered lo ls ((k, c) ∷ m) = IsCovered c lo ls × AllCovered lo ls m

-- What a layer holds, and what is contributed above a level, as numbers without a bound.
pub layer_sum : ℕ → ℕ → GoMap ℕ → ℕ
layer_sum prev lvl [] = 0
layer_sum prev lvl ((k, c) ∷ m) = (if ltb c lvl then 0 else lvl - prev) + layer_sum prev lvl m

unfoldable pub excess : ℕ → GoMap ℕ → ℕ
excess prev [] = 0
excess prev ((k, c) ∷ m) = (c - prev) + excess prev m

pub excess-zero : (m : GoMap ℕ) → excess 0 m ≡ total m
unfolding excess total
excess-zero [] = refl
excess-zero ((k, c) ∷ m) = omega (arith, excess-zero m)

pub IsCovered-next :
    (c lo a : ℕ) (ls : List ℕ)
    → lo < a
    → IsCovered c lo (a ∷ ls)
    → IsAscending a ls
    → IsCovered c a ls
IsCovered-next c lo a [] h (inl low) up = omega arith
IsCovered-next c lo a (b ∷ ls) h (inl low) up = inl (omega arith)
IsCovered-next c lo a ls h (inr (high, more)) up = more

pub AllCovered-next :
    (lo a : ℕ) (ls : List ℕ) (m : GoMap ℕ)
    → lo < a
    → IsAscending a ls
    → AllCovered lo (a ∷ ls) m
    → AllCovered a ls m
AllCovered-next lo a ls [] h up cov = tt
AllCovered-next lo a ls ((k, c) ∷ m) h up cov =
    (IsCovered-next c lo a ls h cov.0 up, AllCovered-next lo a ls m h up cov.1)

-- What is contributed above `lo` is the layer up to the next level and what lies above that.
pub layer_sum-excess :
    (lo a : ℕ) (ls : List ℕ) (m : GoMap ℕ)
    → lo < a
    → AllCovered lo (a ∷ ls) m
    → layer_sum lo a m + excess a m ≡ excess lo m
unfolding layer_sum excess
layer_sum-excess lo a ls [] h cov = refl
layer_sum-excess lo a ls ((k, c) ∷ m) h cov = ground (arith, layer_sum-excess lo a ls m h cov.1)

pub layer_amount-sum :
    (prev lvl acc : ℕ) (m : GoMap ℕ)
    → prev < lvl
    → lvl < u64_mod
    → acc + layer_sum prev lvl m < u64_mod
    → layer_amount prev lvl m acc ≡ acc + layer_sum prev lvl m
unfolding layer_amount layer_sum
layer_amount-sum prev lvl acc [] h k j = omega arith
layer_amount-sum prev lvl acc ((i, c) ∷ m) h k j = elim (Bool-cases (ltb c lvl)) [
  | inl low ↦ ground (arith, layer_amount-sum prev lvl acc m h k)
  | inr high ↦
      let share = u_sub_exact lvl prev (omega arith) k in
      let sum = u_add_exact acc (u_sub lvl prev) (ground arith) in
      let rest = layer_amount-sum prev lvl (u_add acc (u_sub lvl prev)) m h k (ground arith) in
      ground arith
]
