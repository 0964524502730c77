-- ===== src/Ratelimit/Window.antt =====
-- Runs of calls of the limiter, and what is left of a log once its timestamps expire.
use terminal_card.Base.{
  ℕ, ◌%◌, ◌≤◌, ◌≡◌, refl, ap, inl, inr, Bool, true, false, ◌&&◌, ◌||◌, not, List, [], ◌∷◌, ◌++◌,
  ◌==◌, leb, if◌then◌else◌, length, arith, Bool-cases,
}
use terminal_card.Base.GoMap.{
  GoMap, get_or, contains_key, IsDistinct, get_or-absent, get_or-put, get_or-delete,
  get_or-erase_at,
}
use terminal_card.Ratelimit.{
  SlidingWindowLimiter, is_live, filter_expired, store, kept_entry, evict_expired, evict_one,
  evicts, make_room, sweep, live_log, allow,
}
use terminal_card.Ratelimit.Size.{contains_key-evict_expired}

-- A call of Allow, with the position that an eviction would meet first.
pub record Call : Type 0 where
  pub at : ℕ
  pub ip : ℕ
  pub first : ℕ

unfoldable pub run : List Call → SlidingWindowLimiter → SlidingWindowLimiter
run [] s = s
run (c ∷ cs) s = run cs (allow c.first c.at c.ip s).0

-- The time of a call that was granted to the address.
unfoldable pub granted_in : ℕ → Call → SlidingWindowLimiter → List ℕ
granted_in ip c s = if (c.ip == ip) && (allow c.first c.at c.ip s).1 then c.at ∷ [] else []

-- The times at which a run of calls granted the address.
unfoldable pub granted : ℕ → List Call → SlidingWindowLimiter → List ℕ
granted ip [] s = []
granted ip (c ∷ cs) s = granted_in ip c s ++ granted ip cs (allow c.first c.at c.ip s).0

-- The clock does not run backwards, from one time to another.
unfoldable pub in_order : ℕ → List Call → ℕ → Bool
in_order last [] now = leb last now
in_order last (c ∷ cs) now = leb last c.at && in_order c.at cs now

-- Making room for the call does not evict the address.
unfoldable pub spares : ℕ → Call → SlidingWindowLimiter → Bool
spares ip c s =
    let logs = store c.ip (live_log c.at c.ip s) s.logs in
    not (contains_key ip logs) || contains_key ip (make_room s.max_keys c.first c.ip logs)

unfoldable pub all_spare : ℕ → List Call → SlidingWindowLimiter → Bool
all_spare ip [] s = true
all_spare ip (c ∷ cs) s = spares ip c s && all_spare ip cs (allow c.first c.at c.ip s).0

pub filter_expired-append :
    (w now : ℕ) (ts us : List ℕ)
    → filter_expired w now (ts ++ us) ≡ filter_expired w now ts ++ filter_expired w now us
unfolding filter_expired
filter_expired-append w now [] us = refl
filter_expired-append w now (t ∷ ts) us = elim (Bool-cases (is_live w now t)) [
  | inl live ↦ rw (live, filter_expired) (ap (◌∷◌ t) (filter_expired-append w now ts us))
  | inr dead ↦ rw (dead, filter_expired) (filter_expired-append w now ts us)
]

-- What expired at an earlier time has expired.
pub filter_expired-filter_expired :
    (w now later : ℕ) (ts : List ℕ)
    → now ≤ later
    → filter_expired w later (filter_expired w now ts) ≡ filter_expired w later ts
unfolding filter_expired is_live
filter_expired-filter_expired w now later [] h = refl
filter_expired-filter_expired w now later (t ∷ ts) h =
    ground (arith, filter_expired-filter_expired w now later ts h)

pub length-filter_expired : (w now : ℕ) (ts : List ℕ) → length (filter_expired w now ts) ≤ length ts
unfolding filter_expired
length-filter_expired w now [] = omega arith
length-filter_expired w now (t ∷ ts) = ground (arith, length-filter_expired w now ts)

pub get_or-store :
    (k ip : ℕ) (ts : List ℕ) (logs : GoMap (List ℕ))
    → get_or [] k (store ip ts logs) ≡ (if ip == k then ts else get_or [] k logs)
unfolding store
get_or-store k ip [] logs = get_or-delete [] k ip logs
get_or-store k ip (t ∷ ts) logs = get_or-put [] k ip (t ∷ ts) logs

get_or-kept_entry :
    (k j : ℕ) (ts : List ℕ) (rest : GoMap (List ℕ))
    → contains_key j rest ≡ false
    → get_or [] k (kept_entry j ts rest) ≡ (if j == k then ts else get_or [] k rest)
unfolding kept_entry
get_or-kept_entry k j [] rest absent = elim (Bool-cases (j == k)) [
  | inl here ↦
      let same : j ≡ k = ground arith in rw (here, get_or-absent [] k rest (rw same at absent)) refl
  | inr other ↦ rw other refl
]
get_or-kept_entry k j (t ∷ ts) rest absent = refl

get_or-evict_expired :
    (w now k : ℕ) (logs : GoMap (List ℕ))
    → IsDistinct logs
    → get_or [] k (evict_expired w now logs) ≡ filter_expired w now (get_or [] k logs)
unfolding evict_expired filter_expired
get_or-evict_expired w now k [] d = refl
get_or-evict_expired w now k ((j, ts) ∷ logs) d = ground (
  arith,
  get_or-evict_expired w now k logs d.1,
  get_or-kept_entry k j (filter_expired w now ts) (evict_expired w now logs)
      (contains_key-evict_expired w now j logs d.0),
)

pub filter_expired-sweep :
    (ops w now later k : ℕ) (logs : GoMap (List ℕ))
    → now ≤ later
    → IsDistinct logs
    → filter_expired w later (get_or [] k (sweep ops w now logs))
      ≡ filter_expired w later (get_or [] k logs)
unfolding sweep
filter_expired-sweep ops w now later k logs h d = elim (Bool-cases (ops % 64 == 0)) [
  | inl due ↦
      rw (due, sweep, get_or-evict_expired w now k logs d)
        (filter_expired-filter_expired w now later (get_or [] k logs) h)
  | inr not_yet ↦ rw (not_yet, sweep) refl
]

pub get_or-make_room :
    (max_keys first ip k : ℕ) (logs : GoMap (List ℕ))
    → IsDistinct logs
    → not (contains_key k logs) || contains_key k (make_room max_keys first ip logs) ≡ true
    → get_or [] k (make_room max_keys first ip logs) ≡ get_or [] k logs
unfolding make_room evict_one
get_or-make_room max_keys first ip k logs d spared = elim (Bool-cases (evicts max_keys ip logs)) [
  | inl out ↦
      rw (out, make_room)
        (get_or-erase_at [] k (first % length logs) logs d (rw (out, make_room) at spared))
  | inr stays ↦ rw (stays, make_room) refl
]
