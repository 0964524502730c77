-- ===== src/Ratelimit/Size.antt =====
-- The limiter's table keeps to its number of keys, each key once.
use terminal_card.Base.{
  ◌⊎◌, ℕ, suc, ◌+◌, ◌%◌, ◌^◌, ◌≤◌, ◌<◌, ◌≡◌, refl, inl, inr, true, false, List, [], ◌∷◌, ◌++◌, ◌==◌,
  leb, length, erase_at, arith, Bool-cases, length-erase_at,
}
use native.Mathlib.Nat.{mod-lt}
use terminal_card.Base.GoMap.{
  GoMap, contains_key, put, IsDistinct, put-IsDistinct, delete-IsDistinct, erase_at-IsDistinct,
  get_or-absent, length-put, length-delete,
}
use terminal_card.Ratelimit.{
  SlidingWindowLimiter, filter_expired, store, kept_entry, evict_expired, evict_one, evicts,
  make_room, sweep, allow_with, live_log, allow,
}

-- The table holds no more keys than it may, and no key twice.
pub record IsWithinKeys (s : SlidingWindowLimiter) : Type 0 where
  pub fits : length s.logs ≤ s.max_keys
  pub distinct : IsDistinct s.logs

pub store-IsDistinct :
    (ip : ℕ) (ts : List ℕ) (logs : GoMap (List ℕ)) → IsDistinct logs → IsDistinct (store ip ts logs)
unfolding store
store-IsDistinct ip [] logs d = delete-IsDistinct ip logs d
store-IsDistinct ip (t ∷ ts) logs d = put-IsDistinct ip (t ∷ ts) logs d

length-store :
    (ip : ℕ) (ts : List ℕ) (logs : GoMap (List ℕ))
    → (contains_key ip logs ≡ true) ⊎ (ts ≡ [])
    → length (store ip ts logs) ≤ length logs
unfolding store
length-store ip [] logs h = length-delete ip logs
length-store ip (t ∷ ts) logs (inl held) = ground (arith, length-put ip (t ∷ ts) logs)
length-store ip (t ∷ ts) logs (inr empty) = cc

-- Live timestamps are those of a key of the table.
live_log-held :
    (now ip : ℕ) (s : SlidingWindowLimiter)
    → (contains_key ip s.logs ≡ true) ⊎ (live_log now ip s ≡ [])
unfolding live_log filter_expired
live_log-held now ip s = elim (Bool-cases (contains_key ip s.logs)) [
  | inl held ↦ inl held
  | inr absent ↦ inr (rw (get_or-absent [] ip s.logs absent) refl)
]

-- An entry is kept where a timestamp of it is live.
pub kept_entry-cases :
    (P : GoMap (List ℕ) → Type 0) (ip : ℕ) (ts : List ℕ) (rest : GoMap (List ℕ))
    → (ts ≡ [] → P rest)
    → P ((ip, ts) ∷ rest)
    → P (kept_entry ip ts rest)
unfolding kept_entry
kept_entry-cases P ip [] rest gone kept = gone refl
kept_entry-cases P ip (t ∷ ts) rest gone kept = kept

pub contains_key-evict_expired :
    (window now ip : ℕ) (logs : GoMap (List ℕ))
    → contains_key ip logs ≡ false
    → contains_key ip (evict_expired window now logs) ≡ false
unfolding evict_expired
contains_key-evict_expired window now ip [] h = h
contains_key-evict_expired window now ip ((j, ts) ∷ logs) h =
    let same = contains_key-evict_expired window now ip logs (ground arith) in
    kept_entry-cases (λ m. contains_key ip m ≡ false) j (filter_expired window now ts) _
      (λ gone. same) (ground arith)

pub evict_expired-IsDistinct :
    (window now : ℕ) (logs : GoMap (List ℕ))
    → IsDistinct logs
    → IsDistinct (evict_expired window now logs)
unfolding evict_expired kept_entry
evict_expired-IsDistinct window now [] d = d
evict_expired-IsDistinct window now ((j, ts) ∷ logs) d =
    let rest = evict_expired-IsDistinct window now logs d.1 in
    kept_entry-cases IsDistinct j (filter_expired window now ts) _ (λ gone. rest)
      (contains_key-evict_expired window now j logs d.0, rest)

length-evict_expired :
    (window now : ℕ) (logs : GoMap (List ℕ)) → length (evict_expired window now logs) ≤ length logs
unfolding evict_expired kept_entry
length-evict_expired window now [] = omega arith
length-evict_expired window now ((j, ts) ∷ logs) =
    let rest = length-evict_expired window now logs in
    kept_entry-cases (λ m. length m ≤ suc (length logs)) j (filter_expired window now ts) _
      (λ gone. omega (arith, rest)) (omega (arith, rest))

pub make_room-IsDistinct :
    (max_keys first ip : ℕ) (logs : GoMap (List ℕ))
    → IsDistinct logs
    → IsDistinct (make_room max_keys first ip logs)
unfolding make_room evict_one
make_room-IsDistinct max_keys first ip logs d = elim (Bool-cases (evicts max_keys ip logs)) [
  | inl out ↦ rw (out, make_room) (erase_at-IsDistinct (first % length logs) logs d)
  | inr stays ↦ rw (stays, make_room) d
]

pub sweep-IsDistinct :
    (ops window now : ℕ) (logs : GoMap (List ℕ))
    → IsDistinct logs
    → IsDistinct (sweep ops window now logs)
unfolding sweep
sweep-IsDistinct ops window now logs d = elim (Bool-cases (ops % 64 == 0)) [
  | inl due ↦ rw (due, sweep) (evict_expired-IsDistinct window now logs d)
  | inr later ↦ rw (later, sweep) d
]

length-sweep :
    (ops window now : ℕ) (logs : GoMap (List ℕ)) → length (sweep ops window now logs) ≤ length logs
unfolding sweep
length-sweep ops window now logs = elim (Bool-cases (ops % 64 == 0)) [
  | inl due ↦ rw (due, sweep) (length-evict_expired window now logs)
  | inr later ↦ rw (later, sweep) (omega arith)
]

-- After room was made, one more key fits.
length-put_room :
    (max_keys first ip : ℕ) (ts : List ℕ) (logs : GoMap (List ℕ))
    → 0 < max_keys
    → length logs ≤ max_keys
    → length (put ip ts (make_room max_keys first ip logs)) ≤ max_keys
unfolding make_room evicts evict_one
length-put_room max_keys first ip ts logs some_keys h =
    elim (Bool-cases (evicts max_keys ip logs)) [
      | inl out ↦
          let erased = length-erase_at (first % length logs) logs (mod-lt first (ground arith)) in
          rw (out, make_room)
            (ground (arith, length-put ip ts (erase_at (first % length logs) logs), erased))
      | inr stays ↦ rw (stays, make_room) (ground (arith, length-put ip ts logs))
    ]

allow_with-IsWithinKeys :
    (first now ip : ℕ) (s : SlidingWindowLimiter) (ts : List ℕ) (logs : GoMap (List ℕ))
    → 0 < s.max_keys
    → length logs ≤ s.max_keys
    → IsDistinct logs
    → IsWithinKeys (allow_with first now ip s ts logs).0
unfolding allow_with
allow_with-IsWithinKeys first now ip s ts logs some_keys h d =
    elim (Bool-cases (leb s.limit (length ts))) [
      | inl denied ↦ rw (denied, allow_with) (record { fits = h; distinct = d })
      | inr granted ↦
          let ops = (s.ops + 1) % 2 ^ 64 in
          let roomy = make_room s.max_keys first ip logs in
          rw (granted, allow_with)
            (record {
              fits = omega (
                arith,
                length-sweep ops s.window now (put ip (ts ++ now ∷ []) roomy),
                length-put_room s.max_keys first ip (ts ++ now ∷ []) logs some_keys h,
              );
              distinct = sweep-IsDistinct ops s.window now _ (
                  put-IsDistinct ip (ts ++ now ∷ []) roomy
                    (make_room-IsDistinct s.max_keys first ip logs d));
            })
    ]

-- A call of Allow, with whatever key an eviction meets first, leaves no key twice and no more keys
-- than the table may hold, on a limiter that may hold one.
pub allow-IsWithinKeys :
    (first now ip : ℕ) (s : SlidingWindowLimiter)
    → 0 < s.max_keys
    → IsWithinKeys s
    → IsWithinKeys (allow first now ip s).0
unfolding allow
allow-IsWithinKeys first now ip s some_keys h =
    allow_with-IsWithinKeys first now ip s (live_log now ip s) (store ip (live_log now ip s) s.logs)
      some_keys
      (omega (arith, length-store ip (live_log now ip s) s.logs (live_log-held now ip s), h.fits))
      (store-IsDistinct ip (live_log now ip s) s.logs h.distinct)
