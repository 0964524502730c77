-- ===== src/Broadcaster/Runs.antt =====
-- Broadcaster: a subscriber through any run of the operations.
use terminal_card.Base.{
  ◌⊎◌, ltb, inl, inr, ℕ, ◌+◌, ◌<◌, ◌≡◌, refl, ap, sym, subst, ◌∙◌, true, false, not, some, List, [],
  ◌∷◌, ◌++◌, leb, length, ◌==◌, arith, Bool-cases,
}
use native.Mathlib.Nat.{add-zero, add_assoc}
use mathlib.Core.List.{append_assoc, append-nil}
use mathlib.Core.Option
use terminal_card.Base.GoMap.{put, lookup, lookup-put, lookup-delete}
use terminal_card.Broadcaster.{
  Gaps, Subscriber, Broadcaster, subscribe, unsubscribe, deliver, broadcast, received, receive,
}
use terminal_card.Broadcaster.Faithful.{
  IsFaithful, nothing, Merges-whole, dequeue-IsFaithful, deliver-IsFaithful, lookup-deliver_all,
  lookup-receive_in,
}
use terminal_card.Broadcaster.Delivery.{
  Step, step, run, keeps, all_keep, sent_in, sent_by, oldest, taken_in, taken_by, discarded_in,
  discarded_by, in_vain_in, in_vain_by,
}

-- The channel `k` is open, and is faithful to what was sent and received.
pub record Delivers {T : Type 0} (k : ℕ) (b : Broadcaster T) (sent got gone : List T) (vain : ℕ)
    : Type 0 where
  pub opened : b.is_closed ≡ false
  pub taken_id : k < b.next_id
  pub subscriber : Subscriber T
  pub listed : lookup k b.subscribers ≡ some subscriber
  pub faithful : IsFaithful subscriber.buffer subscriber.dropped sent got gone vain

module _ {T : Type 0} (k : ℕ) where
  subscribe-Delivers :
      (b : Broadcaster T) (sent got gone : List T) (vain : ℕ)
      → Delivers k b sent got gone vain
      → Delivers k (subscribe b).0 sent got gone vain
  unfolding subscribe
  subscribe-Delivers b sent got gone vain h =
      elim (Bool-cases (leb b.max_subscribers (length b.subscribers))) [
        | inl fills ↦
            rw (h.opened, subscribe, fills)
              (record {
                opened = refl;
                taken_id = h.taken_id;
                subscriber = h.subscriber;
                listed = h.listed;
                faithful = h.faithful;
              })
        | inr room ↦
            rw (h.opened, subscribe, room)
              (record {
                opened = refl;
                taken_id = omega (arith, h.taken_id);
                subscriber = h.subscriber;
                listed = ground (
                  arith,
                  lookup-put k b.next_id (record { id = b.next_id; buffer = []; dropped = 0 })
                      b.subscribers,
                  h.listed,
                  h.taken_id,
                );
                faithful = h.faithful;
              })
      ]

  unsubscribe-Delivers :
      (j : ℕ) (b : Broadcaster T) (sent got gone : List T) (vain : ℕ)
      → not (j == k) ≡ true
      → Delivers k b sent got gone vain
      → Delivers k (unsubscribe j b) sent got gone vain
  unfolding unsubscribe
  unsubscribe-Delivers j b sent got gone vain other h = record {
    opened = h.opened;
    taken_id = h.taken_id;
    subscriber = h.subscriber;
    listed = ground (arith, lookup-delete k j b.subscribers, h.listed);
    faithful = h.faithful;
  }

  broadcast-Delivers :
      (gaps : ℕ → Gaps) (msg : T) (b : Broadcaster T) (sent got gone : List T) (vain : ℕ)
      → Delivers k b sent got gone vain
      → Delivers k
          (broadcast gaps msg b)
          (sent ++ msg ∷ [])
          (got ++ taken_in k (Step.broadcasts gaps msg) b)
          (gone ++ discarded_in k (Step.broadcasts gaps msg) b)
          (vain + in_vain_in k (Step.broadcasts gaps msg) b)
  unfolding broadcast taken_in discarded_in in_vain_in
  broadcast-Delivers gaps msg b sent got gone vain h =
      rw (h.opened, broadcast, h.listed, taken_in, discarded_in, in_vain_in)
        (record {
          opened = refl;
          taken_id = h.taken_id;
          subscriber = deliver (gaps k) msg h.subscriber;
          listed =
              lookup-deliver_all k gaps msg b.subscribers
              ∙ ap (Option.map (deliver (gaps k) msg)) h.listed;
          faithful = deliver-IsFaithful (gaps k) h.subscriber sent got gone vain msg h.faithful;
        })

  receive-Delivers :
      (j : ℕ) (b : Broadcaster T) (sent got gone : List T) (vain : ℕ)
      → Delivers k b sent got gone vain
      → Delivers k (receive j b) sent (got ++ taken_in k (Step.receives j) b) gone vain
  unfolding receive taken_in oldest received
  receive-Delivers j b sent got gone vain h = elim (Bool-cases (j == k)) [
    | inl here ↦
        rw (here, taken_in, h.listed, oldest)
          (record {
            opened = h.opened;
            taken_id = h.taken_id;
            subscriber = received h.subscriber;
            listed = lookup-receive_in k j b.subscribers ∙ (rw (here, h.listed) refl);
            faithful =
                dequeue-IsFaithful 1 h.subscriber.buffer h.subscriber.dropped sent got gone vain
                  h.faithful;
          })
    | inr other ↦
        rw (other, taken_in, append-nil got)
          (record {
            opened = h.opened;
            taken_id = h.taken_id;
            subscriber = h.subscriber;
            listed = lookup-receive_in k j b.subscribers ∙ (rw (other, h.listed) refl);
            faithful = h.faithful;
          })
  ]

  step-Delivers :
      (st : Step T) (b : Broadcaster T) (sent got gone : List T) (vain : ℕ)
      → keeps k st ≡ true
      → Delivers k b sent got gone vain
      → Delivers k
          (step st b)
          (sent ++ sent_in st)
          (got ++ taken_in k st b)
          (gone ++ discarded_in k st b)
          (vain + in_vain_in k st b)
  unfolding step keeps sent_in taken_in discarded_in in_vain_in
  step-Delivers Step.subscribes b sent got gone vain kept h =
      rw (append-nil sent, append-nil got, append-nil gone, add-zero vain)
        (subscribe-Delivers b sent got gone vain h)
  step-Delivers Step.closes b sent got gone vain kept h = cc
  step-Delivers (Step.unsubscribes j) b sent got gone vain kept h =
      rw (append-nil sent, append-nil got, append-nil gone, add-zero vain)
        (unsubscribe-Delivers j b sent got gone vain kept h)
  step-Delivers (Step.receives j) b sent got gone vain kept h =
      rw (append-nil sent, append-nil gone, add-zero vain)
        (receive-Delivers j b sent got gone vain h)
  step-Delivers (Step.broadcasts gaps msg) b sent got gone vain kept h =
      broadcast-Delivers gaps msg b sent got gone vain h

  run_on-Delivers :
      (sts : List (Step T)) (b : Broadcaster T) (sent got gone : List T) (vain : ℕ)
      → all_keep k sts ≡ true
      → Delivers k b sent got gone vain
      → Delivers k
          (run sts b)
          (sent ++ sent_by sts)
          (got ++ taken_by k sts b)
          (gone ++ discarded_by k sts b)
          (vain + in_vain_by k sts b)
  unfolding run all_keep sent_by taken_by discarded_by in_vain_by
  run_on-Delivers [] b sent got gone vain kept h =
      rw (append-nil sent, append-nil got, append-nil gone, add-zero vain) h
  run_on-Delivers (st ∷ sts) b sent got gone vain kept h =
      rw
        (
          sym (append_assoc sent (sent_in st) (sent_by sts)),
          sym (append_assoc got (taken_in k st b) (taken_by k sts (step st b))),
          sym (append_assoc gone (discarded_in k st b) (discarded_by k sts (step st b))),
          sym (add_assoc vain (in_vain_in k st b) (in_vain_by k sts (step st b))),
        )
        (run_on-Delivers sts (step st b) (sent ++ sent_in st) (got ++ taken_in k st b)
          (gone ++ discarded_in k st b) (vain + in_vain_in k st b) (ground arith)
          (step-Delivers st b sent got gone vain (ground arith) h))

fresh-Delivers :
    {T : Type 0} (b c : Broadcaster T) (k : ℕ) → subscribe b ≡ (c, inr k) → Delivers k c [] [] [] 0
unfolding subscribe
fresh-Delivers b c k joined = elim (Bool-cases b.is_closed) [
  | inl shut ↦ absurd (ground arith)
  | inr opened ↦ elim (Bool-cases (leb b.max_subscribers (length b.subscribers))) [
    | inl fills ↦ absurd (ground arith)
    | inr room ↦
        let fresh : Subscriber _ = record { id = b.next_id; buffer = []; dropped = 0 } in
        let same_id : b.next_id ≡ k = ground arith in
        let same : record b {
          subscribers = put b.next_id fresh b.subscribers;
          next_id = b.next_id + 1;
        }
            ≡ c =
          ground arith in
        subst (λ c. Delivers k c [] [] [] 0) same
          (record {
            opened = opened;
            taken_id = omega (arith, same_id);
            subscriber = fresh;
            listed = ground (arith, lookup-put k b.next_id fresh b.subscribers, same_id);
            faithful = record {
              short = omega arith;
              older = [];
              newest = refl;
              merged = nothing;
              counted = refl;
            };
          })
  ]
]

-- A subscription that has counted no drop has lost nothing.
Delivers-whole :
    {T : Type 0} (k : ℕ) (b : Broadcaster T) (sent got gone : List T) (vain : ℕ)
    → (d : Delivers k b sent got gone vain)
    → (0 < d.subscriber.dropped) ⊎ (got ++ d.subscriber.buffer ≡ sent)
Delivers-whole k b sent got gone vain d =
    let h = d.faithful in
    elim (Bool-cases (ltb 0 d.subscriber.dropped)) [
      | inl some_dropped ↦ inl (ground arith)
      | inr no_drop ↦
          let none_gone : length gone ≡ 0 = ground (arith, h.counted) in
          inr (ap (λ l. l ++ d.subscriber.buffer) (Merges-whole h.merged none_gone) ∙ sym h.newest)
    ]

-- A subscriber that Subscribe accepts keeps its channel through any run of the operations that neither
-- closes the broadcaster nor unsubscribes it, with its receives anywhere, also within a broadcast while
-- its channel is found full. The channel then holds at most 256 messages, and these are the newest that
-- the run broadcast, in their order. Each earlier message was either received or discarded by a broadcast,
-- once, and both lists keep the order of sending. The count of drops is the number of messages discarded
-- and of the drops counted when the subscriber had emptied the channel meanwhile. If no drop is counted,
-- the messages received and then those waiting are all that was sent, in order.
pub run-Delivers :
    {T : Type 0} (b c : Broadcaster T) (k : ℕ) (sts : List (Step T))
    → subscribe b ≡ (c, inr k)
    → all_keep k sts ≡ true
    → (d : Delivers k
        (run sts c)
        (sent_by sts)
        (taken_by k sts c)
        (discarded_by k sts c)
        (in_vain_by k sts c))
      × ((0 < d.subscriber.dropped) ⊎ (taken_by k sts c ++ d.subscriber.buffer ≡ sent_by sts))
run-Delivers b c k sts joined kept =
    let none_before : 0 + in_vain_by k sts c ≡ in_vain_by k sts c = omega arith in
    let d =
      subst (Delivers k (run sts c) (sent_by sts) (taken_by k sts c) (discarded_by k sts c))
        none_before (run_on-Delivers k sts c [] [] [] 0 kept (fresh-Delivers b c k joined)) in
    (
      d,
      Delivers-whole k (run sts c) (sent_by sts) (taken_by k sts c) (discarded_by k sts c)
          (in_vain_by k sts c) d,
    )
