-- ===== src/Base/GoMap.antt =====
-- A Go map over ids as an association list. A missing key reads as the zero value, a write replaces
-- the entry or adds one. Go iterates a map in an arbitrary order, here in the order of the list.
use Prim.Native.Nat.{ℕ, zero, suc, ◌+◌, ◌≤◌}
use mathlib.Core.Path.{◌≡◌, refl, ◌∙◌}
use mathlib.Core.Logic.{inl, inr}
use mathlib.Core.Bool.{Bool, true, false, not, ◌||◌}
use mathlib.Core.List.{List, [], ◌∷◌}
use mathlib.Core.Option.{Option, none, some}
use native.Mathlib.Omega.{arith}
use terminal_card.Base.Lists.{length, erase_at}
use terminal_card.Base.Tests.{◌==◌, if◌then◌else◌, Bool-cases}

abbrev pub GoMap {ℓ} : Type ℓ → Type ℓ
GoMap V = List (ℕ × V)

module _ {ℓ} {V : Type ℓ} where
  -- The value at a key, or the zero value `d`.
  abbrev pub get_or : V → ℕ → GoMap V → V
  get_or d k [] = d
  get_or d k ((j, v) ∷ m) = if j == k then v else get_or d k m

  abbrev pub contains_key : ℕ → GoMap V → Bool
  contains_key k [] = false
  contains_key k ((j, v) ∷ m) = if j == k then true else contains_key k m

  unfoldable pub put : ℕ → V → GoMap V → GoMap V
  put k v [] = (k, v) ∷ []
  put k v ((j, w) ∷ m) = if j == k then (k, v) ∷ m else (j, w) ∷ put k v m

  -- The builtin `delete`.
  unfoldable pub delete : ℕ → GoMap V → GoMap V
  delete k [] = []
  delete k ((j, w) ∷ m) = let rest = delete k m in if j == k then rest else (j, w) ∷ rest

  pub get_or-put :
      (d : V) (j k : ℕ) (v : V) (m : GoMap V)
      → get_or d j (put k v m) ≡ (if k == j then v else get_or d j m)
  unfolding put
  get_or-put d j k v [] = refl
  get_or-put d j k v ((i, w) ∷ m) = ground (arith, get_or-put d j k v m)

  pub get_or-delete :
      (d : V) (j k : ℕ) (m : GoMap V)
      → get_or d j (delete k m) ≡ (if k == j then d else get_or d j m)
  unfolding delete
  get_or-delete d j k [] = ground arith
  get_or-delete d j k ((i, w) ∷ m) = ground (arith, get_or-delete d j k m)

-- The sum of the values, as a number without a bound.
unfoldable pub total : GoMap ℕ → ℕ
total [] = 0
total ((k, v) ∷ m) = v + total m

pub total-put : (k v : ℕ) (m : GoMap ℕ) → total (put k v m) + get_or 0 k m ≡ total m + v
unfolding total put
total-put k v [] = omega arith
total-put k v ((j, w) ∷ m) = ground (arith, total-put k v m)

pub get_or-le-total : (k : ℕ) (m : GoMap ℕ) → get_or 0 k m ≤ total m
unfolding total
get_or-le-total k [] = omega arith
get_or-le-total k ((j, w) ∷ m) = ground (arith, get_or-le-total k m)

-- No key stands twice, as in every Go map.
abbrev pub IsDistinct {ℓ} : {V : Type ℓ} → GoMap V → Type 0
IsDistinct [] = Unit
IsDistinct ((k, v) ∷ m) = (contains_key k m ≡ false) × IsDistinct m

module _ {ℓ} {V : Type ℓ} where
  contains_key-put :
      (j k : ℕ) (v : V) (m : GoMap V)
      → contains_key j (put k v m) ≡ (if k == j then true else contains_key j m)
  unfolding put
  contains_key-put j k v [] = refl
  contains_key-put j k v ((i, w) ∷ m) = ground (arith, contains_key-put j k v m)

  pub put-IsDistinct : (k : ℕ) (v : V) (m : GoMap V) → IsDistinct m → IsDistinct (put k v m)
  unfolding put
  put-IsDistinct k v [] d = (refl, tt)
  put-IsDistinct k v ((j, w) ∷ m) d = elim (Bool-cases (j == k)) [
    | inl here ↦ let e : j ≡ k = ground arith in rw (here, put) (rw e at d.0, d.1)
    | inr later ↦
        rw (later, put) (contains_key-put j k v m ∙ (ground arith), put-IsDistinct k v m d.1)
  ]

module _ {ℓ} {V : Type ℓ} where
  -- The value at a key, if there is one.
  abbrev pub lookup : ℕ → GoMap V → Option V
  lookup k [] = none
  lookup k ((j, v) ∷ m) = if j == k then some v else lookup k m

  pub lookup-put :
      (j k : ℕ) (v : V) (m : GoMap V)
      → lookup j (put k v m) ≡ (if k == j then some v else lookup j m)
  unfolding put
  lookup-put j k v [] = refl
  lookup-put j k v ((i, w) ∷ m) = ground (arith, lookup-put j k v m)

  pub lookup-delete :
      (j k : ℕ) (m : GoMap V) → lookup j (delete k m) ≡ (if k == j then none else lookup j m)
  unfolding delete
  lookup-delete j k [] = ground arith
  lookup-delete j k ((i, w) ∷ m) = ground (arith, lookup-delete j k m)

  contains_key-delete :
      (j k : ℕ) (m : GoMap V)
      → contains_key j (delete k m) ≡ (if k == j then false else contains_key j m)
  unfolding delete
  contains_key-delete j k [] = ground arith
  contains_key-delete j k ((i, w) ∷ m) = ground (arith, contains_key-delete j k m)

  pub delete-IsDistinct : (k : ℕ) (m : GoMap V) → IsDistinct m → IsDistinct (delete k m)
  unfolding delete
  delete-IsDistinct k [] d = tt
  delete-IsDistinct k ((j, w) ∷ m) d = elim (Bool-cases (j == k)) [
    | inl here ↦ rw (here, delete) (delete-IsDistinct k m d.1)
    | inr later ↦
        rw (later, delete)
          (ground (arith, contains_key-delete j k m, d.0), delete-IsDistinct k m d.1)
  ]

  contains_key-erase_at :
      (j i : ℕ) (m : GoMap V) → contains_key j m ≡ false → contains_key j (erase_at i m) ≡ false
  contains_key-erase_at j i [] h = h
  contains_key-erase_at j zero ((k, w) ∷ m) h = ground arith
  contains_key-erase_at j (suc i) ((k, w) ∷ m) h = ground (arith, contains_key-erase_at j i m)

  pub erase_at-IsDistinct : (i : ℕ) (m : GoMap V) → IsDistinct m → IsDistinct (erase_at i m)
  erase_at-IsDistinct i [] d = d
  erase_at-IsDistinct zero ((k, w) ∷ m) d = d.1
  erase_at-IsDistinct (suc i) ((k, w) ∷ m) d =
      (contains_key-erase_at k i m d.0, erase_at-IsDistinct i m d.1)

  -- Erasing an entry leaves a key that is still there as it was.
  pub get_or-erase_at :
      (d : V) (j i : ℕ) (m : GoMap V)
      → IsDistinct m
      → not (contains_key j m) || contains_key j (erase_at i m) ≡ true
      → get_or d j (erase_at i m) ≡ get_or d j m
  get_or-erase_at d j i [] dm h = refl
  get_or-erase_at d j zero ((k, w) ∷ m) dm h = ground (arith, dm.0)
  get_or-erase_at d j (suc i) ((k, w) ∷ m) dm h = elim (Bool-cases (k == j)) [
    | inl here ↦ ground arith
    | inr later ↦ ground (arith, get_or-erase_at d j i m dm.1)
  ]

  pub get_or-absent : (d : V) (k : ℕ) (m : GoMap V) → contains_key k m ≡ false → get_or d k m ≡ d
  get_or-absent d k [] h = refl
  get_or-absent d k ((j, w) ∷ m) h = ground (arith, get_or-absent d k m)

  pub length-put :
      (k : ℕ) (v : V) (m : GoMap V)
      → length (put k v m) ≡ (if contains_key k m then length m else length m + 1)
  unfolding put
  length-put k v [] = refl
  length-put k v ((j, w) ∷ m) = ground (arith, length-put k v m)

  pub length-delete : (k : ℕ) (m : GoMap V) → length (delete k m) ≤ length m
  unfolding delete
  length-delete k [] = omega arith
  length-delete k ((j, w) ∷ m) = ground (arith, length-delete k m)
