-- ===== src/Poker/Scores.antt =====
-- internal/game/poker/evaluator.go: score compares hands by their rank, and then by their kickers in turn.
pub mod Bounds
pub mod Order
use Prim.Native.Nat.{bit_or}
use terminal_card.Base.{
  ℕ, zero, suc, ◌+◌, ◌*◌, ◌^◌, ◌<◌, ◌≡◌, refl, ap, ◌∙◌, Bool, true, false, List, [], ◌∷◌, ◌==◌, ltb,
  arith, if◌then◌else◌, length, All,
}
use terminal_card.Base.Bits.{bit_or-shifted}
use terminal_card.Poker.Evaluator.{HandValue, pack_kickers, score}

-- Five kickers, each of four bits.
pub record IsPacked (h : HandValue) : Type 0 where
  pub five : length h.kickers ≡ 5
  pub nibbles : All (λ k. k < 16) h.kickers

-- The order by the first place that differs.
unfoldable pub comes_before : List ℕ → List ℕ → Bool
comes_before [] bs = false
comes_before (a ∷ as') [] = false
comes_before (a ∷ as') (b ∷ bs) = let rest = comes_before as' bs in if a == b then rest else ltb a b

-- The score as a number in base sixteen.
pack_sum :
    (r k0 k1 k2 k3 k4 : ℕ)
    → k0 < 16
    → k1 < 16
    → k2 < 16
    → k3 < 16
    → k4 < 16
    → pack_kickers r (k0 ∷ k1 ∷ k2 ∷ k3 ∷ k4 ∷ [])
      ≡ ((((r * 16 + k0) * 16 + k1) * 16 + k2) * 16 + k3) * 16 + k4
unfolding pack_kickers
pack_sum r k0 k1 k2 k3 k4 h0 h1 h2 h3 h4 =
    let e0 : bit_or (r * 2 ^ 20) (k0 * 2 ^ 16) ≡ (r * 16 + k0) * 2 ^ 16 =
      omega (arith, bit_or-shifted 20 r (k0 * 2 ^ 16) (omega arith)) in
    let e1 : bit_or ((r * 16 + k0) * 2 ^ 16) (k1 * 2 ^ 12) ≡ ((r * 16 + k0) * 16 + k1) * 2 ^ 12 =
      omega (arith, bit_or-shifted 16 (r * 16 + k0) (k1 * 2 ^ 12) (omega arith)) in
    let e2 : bit_or (((r * 16 + k0) * 16 + k1) * 2 ^ 12) (k2 * 2 ^ 8)
        ≡ (((r * 16 + k0) * 16 + k1) * 16 + k2) * 2 ^ 8 =
      omega (arith, bit_or-shifted 12 ((r * 16 + k0) * 16 + k1) (k2 * 2 ^ 8) (omega arith)) in
    let e3 : bit_or ((((r * 16 + k0) * 16 + k1) * 16 + k2) * 2 ^ 8) (k3 * 2 ^ 4)
        ≡ ((((r * 16 + k0) * 16 + k1) * 16 + k2) * 16 + k3) * 2 ^ 4 =
      omega (
        arith,
        bit_or-shifted 8 (((r * 16 + k0) * 16 + k1) * 16 + k2) (k3 * 2 ^ 4) (omega arith),
      ) in
    rw (e0, e1, e2, e3)
      (omega (
        arith,
        bit_or-shifted 4 ((((r * 16 + k0) * 16 + k1) * 16 + k2) * 16 + k3) k4 (omega arith),
      ))

-- The number whose digits in base sixteen are the list's, behind those of `n`.
value : ℕ → List ℕ → ℕ
value n [] = n
value n (k ∷ ks) = value (n * 16 + k) ks

compare_digit :
    (a b x y : ℕ) (rest : Bool)
    → x < 16
    → y < 16
    → (if (a * 16 + x) == (b * 16 + y) then rest else ltb (a * 16 + x) (b * 16 + y))
      ≡ (if a == b then (if x == y then rest else ltb x y) else ltb a b)
compare_digit a b x y rest hx hy = ground arith

ltb-value :
    (a b : ℕ) (xs ys : List ℕ)
    → length xs ≡ length ys
    → All (λ k. k < 16) xs
    → All (λ k. k < 16) ys
    → ltb (value a xs) (value b ys) ≡ (if a == b then comes_before xs ys else ltb a b)
unfolding value comes_before
ltb-value a b [] [] size hx hy = ground arith
ltb-value a b [] (y ∷ ys) size hx hy = cc
ltb-value a b (x ∷ xs) [] size hx hy = cc
ltb-value a b (x ∷ xs) (y ∷ ys) size hx hy =
    ltb-value (a * 16 + x) (b * 16 + y) xs ys (omega arith) hx.1 hy.1
    ∙ compare_digit a b x y (comes_before xs ys) hx.0 hy.0

score-value : (h : HandValue) → IsPacked h → score h ≡ value h.rank h.kickers
unfolding score value
score-value h p = digits h.kickers p.five p.nibbles
  where
    digits :
        (ks : List ℕ)
        → length ks ≡ 5
        → All (λ k. k < 16) ks
        → pack_kickers h.rank ks ≡ value h.rank ks
    digits [] size fits = absurd (omega arith)
    digits (k0 ∷ []) size fits = absurd (omega arith)
    digits (k0 ∷ k1 ∷ []) size fits = absurd (omega arith)
    digits (k0 ∷ k1 ∷ k2 ∷ []) size fits = absurd (omega arith)
    digits (k0 ∷ k1 ∷ k2 ∷ k3 ∷ []) size fits = absurd (omega arith)
    digits (k0 ∷ k1 ∷ k2 ∷ k3 ∷ k4 ∷ []) size fits =
        pack_sum h.rank k0 k1 k2 k3 k4 fits.0 fits.1.0 fits.1.1.0 fits.1.1.1.0 fits.1.1.1.1.0
    digits (k0 ∷ k1 ∷ k2 ∷ k3 ∷ k4 ∷ k5 ∷ ks) size fits = absurd (omega arith)

-- The score of a hand is below another's exactly where its rank and kickers come before the other's, place by
-- place, the rank first.
pub ltb-score :
    (a b : HandValue)
    → IsPacked a
    → IsPacked b
    → ltb (score a) (score b) ≡ comes_before (a.rank ∷ a.kickers) (b.rank ∷ b.kickers)
unfolding comes_before
ltb-score a b pa pb =
    rw (score-value a pa, score-value b pb)
      (ltb-value a.rank b.rank a.kickers b.kickers (omega (arith, pa.five, pb.five)) pa.nibbles
        pb.nibbles)
