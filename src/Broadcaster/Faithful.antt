-- ===== src/Broadcaster/Faithful.antt =====
-- Broadcaster: what a channel holds after one of the operations.
use terminal_card.Base.{
  zero, suc, subst, length-drop, inl, inr, ℕ, ◌+◌, ◌≤◌, ◌<◌, ◌≡◌, refl, ap, sym, ◌∙◌, List, [], ◌∷◌,
  ◌++◌, if◌then◌else◌, length, take, drop, ◌==◌, arith, Bool-cases, length-append,
}
use mathlib.Core.List.{append_assoc, append-nil}
use mathlib.Core.Option
use terminal_card.Base.GoMap.{GoMap, lookup}
use terminal_card.Broadcaster.{
  Gaps, Subscriber, is_full, deliver, deliver_all, received, receive_in, subscriber_buffer,
}
use terminal_card.Broadcaster.Delivery.{taken_while, discarded_while, emptied, in_vain_while}

-- `older` interleaves two lists, each in its order.
pub data Merges {T : Type 0} : List T → List T → List T → Type 0 where
  nothing : Merges [] [] []
  left :
      {got gone older : List T} (x : T)
      → Merges got gone older
      → Merges (got ++ x ∷ []) gone (older ++ x ∷ [])
  right :
      {got gone older : List T} (x : T)
      → Merges got gone older
      → Merges got (gone ++ x ∷ []) (older ++ x ∷ [])

-- A subscription after `sent` was broadcast, with `queue` in its buffer, a count of `dropped`, `got`
-- received, `gone` discarded, and `vain` drops counted with nothing discarded. The buffer is within its
-- size and holds the newest of what was sent, what came before is received or discarded, in order, each
-- message once, and the count of drops is exact up to those in vain.
pub record IsFaithful {T : Type 0} (queue : List T) (dropped : ℕ) (sent got gone : List T)
    (vain : ℕ) : Type 0 where
  pub short : length queue ≤ subscriber_buffer
  pub older : List T
  pub newest : sent ≡ older ++ queue
  pub merged : Merges got gone older
  pub counted : dropped ≡ length gone + vain

module _ {T : Type 0} where
  -- Where nothing is discarded, all that is not waiting was received, in order.
  pub Merges-whole :
      {got gone older : List T} → Merges got gone older → length gone ≡ 0 → got ≡ older
  Merges-whole nothing none_gone = refl
  Merges-whole (left x m) none_gone = ap (λ l. l ++ x ∷ []) (Merges-whole m none_gone)
  Merges-whole (right {gone = gone} x m) none_gone =
      absurd (omega (arith, length-append gone (x ∷ []), none_gone))

  enqueue-IsFaithful :
      (queue : List T) (dropped : ℕ) (sent got gone : List T) (vain : ℕ) (msg : T)
      → length queue < subscriber_buffer
      → IsFaithful queue dropped sent got gone vain
      → IsFaithful (queue ++ msg ∷ []) dropped (sent ++ msg ∷ []) got gone vain
  enqueue-IsFaithful queue dropped sent got gone vain msg room h = record {
    short = omega (arith, length-append queue (msg ∷ []));
    older = h.older;
    newest = ap (λ l. l ++ msg ∷ []) h.newest ∙ append_assoc h.older queue (msg ∷ []);
    merged = h.merged;
    counted = h.counted;
  }

  pub dequeue-IsFaithful :
      (n : ℕ) (queue : List T) (dropped : ℕ) (sent got gone : List T) (vain : ℕ)
      → IsFaithful queue dropped sent got gone vain
      → IsFaithful (drop n queue) dropped sent (got ++ take n queue) gone vain
  dequeue-IsFaithful zero queue dropped sent got gone vain h = rw (append-nil got) h
  dequeue-IsFaithful (suc n) [] dropped sent got gone vain h = rw (append-nil got) h
  dequeue-IsFaithful (suc n) (x ∷ queue) dropped sent got gone vain h =
      subst (λ g. IsFaithful (drop n queue) dropped sent g gone vain)
        (append_assoc got (x ∷ []) (take n queue))
        (dequeue-IsFaithful n queue dropped sent (got ++ x ∷ []) gone vain (record {
          short = omega (arith, h.short);
          older = h.older ++ x ∷ [];
          newest = h.newest ∙ sym (append_assoc h.older (x ∷ []) queue);
          merged = left x h.merged;
          counted = h.counted;
        }))

  discard-IsFaithful :
      (queue : List T) (dropped : ℕ) (sent got gone : List T) (vain : ℕ)
      → IsFaithful queue dropped sent got gone vain
      → IsFaithful
          (drop 1 queue)
          (dropped + 1)
          sent
          got
          (gone ++ take 1 queue)
          (vain + emptied queue)
  unfolding emptied
  discard-IsFaithful [] dropped sent got gone vain h = rw (append-nil gone) (record {
    short = h.short;
    older = h.older;
    newest = h.newest;
    merged = h.merged;
    counted = omega (arith, h.counted);
  })
  discard-IsFaithful (x ∷ queue) dropped sent got gone vain h = record {
    short = omega (arith, h.short);
    older = h.older ++ x ∷ [];
    newest = h.newest ∙ sym (append_assoc h.older (x ∷ []) queue);
    merged = right x h.merged;
    counted = omega (arith, h.counted, length-append gone (x ∷ []));
  }

  pub deliver-IsFaithful :
      (g : Gaps) (s : Subscriber T) (sent got gone : List T) (vain : ℕ) (msg : T)
      → IsFaithful s.buffer s.dropped sent got gone vain
      → IsFaithful
          (deliver g msg s).buffer
          (deliver g msg s).dropped
          (sent ++ msg ∷ [])
          (got ++ taken_while g s)
          (gone ++ discarded_while g s)
          (vain + in_vain_while g s)
  unfolding deliver is_full taken_while discarded_while in_vain_while
  deliver-IsFaithful g s sent got gone vain msg h = elim (Bool-cases (is_full s)) [
    | inl full ↦
        let early = dequeue-IsFaithful g.early s.buffer s.dropped sent got gone vain h in
        let drained =
          discard-IsFaithful (drop g.early s.buffer) s.dropped sent (got ++ take g.early s.buffer)
            gone vain early in
        let rest = drop 1 (drop g.early s.buffer) in
        let late =
          dequeue-IsFaithful g.late rest (s.dropped + 1) sent (got ++ take g.early s.buffer) _ _
            drained in
        let room : length (drop g.late rest) < subscriber_buffer = omega (
          arith,
          h.short,
          length-drop g.late rest,
          length-drop 1 (drop g.early s.buffer),
          length-drop g.early s.buffer,
        ) in
        rw
          (
            full,
            deliver,
            taken_while,
            discarded_while,
            in_vain_while,
            sym (append_assoc got (take g.early s.buffer) (take g.late rest)),
          )
          (enqueue-IsFaithful _ _ sent _ _ _ msg room late)
    | inr free ↦
        rw
          (
            free,
            deliver,
            taken_while,
            discarded_while,
            in_vain_while,
            append-nil got,
            append-nil gone,
          )
          (enqueue-IsFaithful s.buffer s.dropped sent got gone _ msg (ground arith) (record {
            short = h.short;
            older = h.older;
            newest = h.newest;
            merged = h.merged;
            counted = omega (arith, h.counted);
          }))
  ]

  pub lookup-deliver_all :
      (k : ℕ) (gaps : ℕ → Gaps) (msg : T) (m : GoMap (Subscriber T))
      → lookup k (deliver_all gaps msg m) ≡ Option.map (deliver (gaps k) msg) (lookup k m)
  unfolding deliver_all
  lookup-deliver_all k gaps msg [] = refl
  lookup-deliver_all k gaps msg ((j, s) ∷ m) = ground (arith, lookup-deliver_all k gaps msg m)

  pub lookup-receive_in :
      (k j : ℕ) (m : GoMap (Subscriber T))
      → lookup k (receive_in j m)
        ≡ (if j == k then Option.map received (lookup k m) else lookup k m)
  unfolding receive_in
  lookup-receive_in k j [] = ground arith
  lookup-receive_in k j ((i, s) ∷ m) = ground (arith, lookup-receive_in k j m)
