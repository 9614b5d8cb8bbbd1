-- ===== src/Brokers/Delivery.antt =====
-- Theorems on the queues and the table of subscribers of the keyed brokers.
use sentry_backend.Base.{
  ℕ, suc, ◌≤◌, ◌≡◌, refl, ap, ◌∙◌, Bool, true, false, ◌&&◌, Option, none, some, List, [], ◌∷◌, map,
  ◌==◌, if◌then◌else◌, arith, Bool-cases, inl, inr,
}
use sentry_backend.Base.Lists.{filter_by, find_by, All}
use sentry_backend.Base.Dict.{Dict, lookup, lookup-insert, lookup-erase}
use sentry_backend.Brokers.{
  Sub, Broker, or_empty, subs_at, subscribe, put_or_pop, other_than, drop_at, unsubscribe, deliver,
  publish_at, publish,
}
use sentry_backend.Brokers.Queue.{put_all, last_n, put_all_last}

module _ {A : Type 0} where
  subs_at-publish :
      (max key k : ℕ) (x : A) (b : Broker A)
      → subs_at k (publish max key x b)
        ≡ (if key == k then map (deliver max x) (subs_at k b) else subs_at k b)
  unfolding subs_at publish publish_at
  subs_at-publish max key k x b = go (lookup key b.subscribers) refl
    where
      go :
          (o : Option (List (Sub A)))
          → lookup key b.subscribers ≡ o
          → or_empty (lookup k (publish_at max key x o b.subscribers)) ≡ (
              if key == k
              then map (deliver max x) (or_empty (lookup k b.subscribers))
              else or_empty (lookup k b.subscribers))
      go none e = ground (arith, e)
      go (some subs) e =
          ground (arith, e, lookup-insert key k (map (deliver max x) subs) b.subscribers)

  subs_at-unsubscribe :
      (key id k : ℕ) (b : Broker A)
      → subs_at k (unsubscribe key id b)
        ≡ (if key == k then filter_by (other_than id) (subs_at k b) else subs_at k b)
  unfolding subs_at unsubscribe drop_at put_or_pop
  subs_at-unsubscribe key id k b = go (lookup key b.subscribers) refl
    where
      kept :
          (subs left : List (Sub A))
          → lookup key b.subscribers ≡ some subs
          → left ≡ filter_by (other_than id) subs
          → or_empty (lookup k (put_or_pop key left b.subscribers)) ≡ (
              if key == k
              then filter_by (other_than id) (or_empty (lookup k b.subscribers))
              else or_empty (lookup k b.subscribers))
      kept subs [] e h = ground (arith, e, h, lookup-erase key k b.subscribers)
      kept subs (s ∷ left) e h = ground (arith, e, h, lookup-insert key k (s ∷ left) b.subscribers)

      go :
          (o : Option (List (Sub A)))
          → lookup key b.subscribers ≡ o
          → or_empty (lookup k (drop_at key id o b.subscribers)) ≡ (
              if key == k
              then filter_by (other_than id) (or_empty (lookup k b.subscribers))
              else or_empty (lookup k b.subscribers))
      go none e = ground (arith, e)
      go (some subs) e = kept subs (filter_by (other_than id) subs) e refl

  subs_at-subscribe :
      (key k : ℕ) (b : Broker A)
      → subs_at k (subscribe key b).1
        ≡ (if key == k then record { id = b.next_id; queue = [] } ∷ subs_at k b else subs_at k b)
  unfolding subs_at subscribe
  subs_at-subscribe key k b = ground (
    arith,
    lookup-insert key k (record { id = b.next_id; queue = [] } ∷ subs_at key b) b.subscribers,
  )
  -- An operation on the broker.

pub data Op (A : Type 0) : Type 0 where
  op_subscribe : ℕ → Op A
  op_unsubscribe : ℕ → ℕ → Op A
  op_publish : ℕ → A → Op A

module _ {A : Type 0} where
  abbrev pub step : ℕ → Op A → Broker A → Broker A
  step max (op_subscribe key) b = (subscribe key b).1
  step max (op_unsubscribe key id) b = unsubscribe key id b
  step max (op_publish key x) b = publish max key x b

  abbrev pub run : ℕ → List (Op A) → Broker A → Broker A
  run max [] b = b
  run max (o ∷ ops) b = run max ops (step max o b)

  -- What the operations publish under a key.
  abbrev pub sent : ℕ → List (Op A) → List A
  sent k [] = []
  sent k (op_publish key x ∷ ops) = let more = sent k ops in if key == k then x ∷ more else more
  sent k (op_subscribe key ∷ ops) = sent k ops
  sent k (op_unsubscribe key id ∷ ops) = sent k ops

  -- The operation does not unsubscribe this subscriber.
  abbrev pub Stays : ℕ → ℕ → Op A → Type 0
  Stays k i (op_unsubscribe key id) = (key == k && id == i) ≡ false
  Stays k i (op_subscribe key) = Unit
  Stays k i (op_publish key x) = Unit

  abbrev pub has_id : ℕ → Sub A → Bool
  has_id i s = s.id == i

  find-deliver :
      (max i : ℕ) (x : A) (subs : List (Sub A)) (s : Sub A)
      → find_by (has_id i) subs ≡ some s
      → find_by (has_id i) (map (deliver max x) subs) ≡ some (deliver max x s)
  find-deliver max i x [] s h = cc
  find-deliver max i x (y ∷ subs) s h = ground (arith, h, find-deliver max i x subs s)

  find-filter :
      (i id : ℕ) (subs : List (Sub A))
      → (id == i) ≡ false
      → find_by (has_id i) (filter_by (other_than id) subs) ≡ find_by (has_id i) subs
  find-filter i id [] h = refl
  find-filter i id (y ∷ subs) h = ground (arith, h, find-filter i id subs h)

  abbrev pub find_at : ℕ → ℕ → Broker A → Option (Sub A)
  find_at k i b = find_by (has_id i) (subs_at k b)

  abbrev arrives : ℕ → ℕ → Op A → Sub A → Sub A
  arrives max k o s = record s { queue = put_all max (sent k (o ∷ [])) s.queue }

  -- One operation, for a subscriber that stays.
  step_one :
      (max k i : ℕ) (o : Op A) (b : Broker A) (s : Sub A)
      → Stays k i o
      → suc i ≤ b.next_id
      → find_at k i b ≡ some s
      → (find_at k i (step max o b) ≡ some (arrives max k o s)) × (suc i ≤ (step max o b).next_id)
  unfolding subscribe unsubscribe publish
  step_one max k i (op_subscribe key) b s stays old h = elim (Bool-cases (key == k)) [
    | inl e ↦ (rw (subs_at-subscribe key k b) (ground (arith, e, h, old)), ground (arith, old))
    | inr e ↦ (rw (subs_at-subscribe key k b) (ground (arith, e, h)), ground (arith, old))
  ]
  step_one max k i (op_unsubscribe key id) b s stays old h = elim (Bool-cases (key == k)) [
    | inl e ↦ (
      rw subs_at-unsubscribe
          (ground (arith, e, h, find-filter i id (subs_at k b) (ground (arith, e, stays)))),
      old,
    )
    | inr e ↦ (rw subs_at-unsubscribe (ground (arith, e, h)), old)
  ]
  step_one max k i (op_publish key x) b s stays old h = elim (Bool-cases (key == k)) [
    | inl e ↦ (rw subs_at-publish (ground (arith, e, find-deliver max i x (subs_at k b) s h)), old)
    | inr e ↦ (rw subs_at-publish (ground (arith, e, h)), old)
  ]

  sent_cons :
      (max k : ℕ) (o : Op A) (ops : List (Op A)) (q : List A)
      → put_all max (sent k ops) (put_all max (sent k (o ∷ [])) q)
        ≡ put_all max (sent k (o ∷ ops)) q
  sent_cons max k (op_subscribe key) ops q = refl
  sent_cons max k (op_unsubscribe key id) ops q = refl
  sent_cons max k (op_publish key x) ops q = elim (Bool-cases (key == k)) [
    | inl e ↦ rw e refl
    | inr e ↦ rw e refl
  ]

  run_lem :
      (max k i : ℕ) (ops : List (Op A)) (b : Broker A) (s : Sub A)
      → All (Stays k i) ops
      → suc i ≤ b.next_id
      → find_at k i b ≡ some s
      → find_at k i (run max ops b) ≡ some (record s { queue = put_all max (sent k ops) s.queue })
  run_lem max k i [] b s stays old h = h
  run_lem max k i (o ∷ ops) b s stays old h =
      let (found, old') = step_one max k i o b s stays.0 old h in
      run_lem max k i ops (step max o b) (arrives max k o s) stays.1 old' found
      ∙ ap (λ q. some (record s { queue = q })) (sent_cons max k o ops s.queue)

  -- From any broker, whatever the other subscribers do, the queue of a new subscriber that is not
  -- unsubscribed holds the newest `max` (at least one) of the payloads published under its key since
  -- it subscribed, oldest first, and none of another key.
  pub subscriber-Receives :
      (max key : ℕ) (b : Broker A) (ops : List (Op A))
      → 1 ≤ max
      → All (Stays key b.next_id) ops
      → find_at key (subscribe key b).0 (run max ops (subscribe key b).1)
        ≡ some (record { id = b.next_id; queue = last_n max (sent key ops) })
  unfolding subscribe
  subscriber-Receives max key b ops pos stays =
      run_lem max key b.next_id ops (subscribe key b).1 (record { id = b.next_id; queue = [] })
        stays (omega arith) (rw (subs_at-subscribe key key b) (ground arith))
      ∙ ap (λ q. some (record { id = b.next_id; queue = q }))
          (put_all_last max (sent key ops) [] pos (omega arith))

  abbrev is_blank : Option (List (Sub A)) → Bool
  is_blank none = false
  is_blank (some []) = true
  is_blank (some (s ∷ subs)) = false

  -- No key is kept for an empty set of subscribers.
  abbrev pub Tidy : Broker A → Type 0
  Tidy b = (k : ℕ) → is_blank (lookup k b.subscribers) ≡ false

  abbrev TidyTable : Dict (List (Sub A)) → Type 0
  TidyTable d = (k : ℕ) → is_blank (lookup k d) ≡ false

  put_lem :
      (key : ℕ) (left : List (Sub A)) (d : Dict (List (Sub A)))
      → TidyTable d
      → TidyTable (put_or_pop key left d)
  unfolding put_or_pop
  put_lem key [] d t k = ground (arith, t k, lookup-erase key k d)
  put_lem key (s ∷ left) d t k = ground (arith, t k, lookup-insert key k (s ∷ left) d)

  drop_lem :
      (key id : ℕ) (o : Option (List (Sub A))) (d : Dict (List (Sub A)))
      → TidyTable d
      → TidyTable (drop_at key id o d)
  unfolding drop_at
  drop_lem key id none d t = t
  drop_lem key id (some subs) d t = put_lem key (filter_by (other_than id) subs) d t

  publish_lem :
      (max key : ℕ) (x : A) (o : Option (List (Sub A))) (d : Dict (List (Sub A)))
      → TidyTable d
      → lookup key d ≡ o
      → TidyTable (publish_at max key x o d)
  unfolding publish_at
  publish_lem max key x none d t e k = t k
  publish_lem max key x (some []) d t e k = ground (arith, t key, e)
  publish_lem max key x (some (s ∷ subs)) d t e k =
      ground (arith, t k, lookup-insert key k (map (deliver max x) (s ∷ subs)) d)

  step-Tidy : (max : ℕ) (o : Op A) (b : Broker A) → Tidy b → Tidy (step max o b)
  unfolding subscribe unsubscribe publish publish_at drop_at put_or_pop
  step-Tidy max (op_subscribe key) b t k = ground (
    arith,
    t k,
    lookup-insert key k (record { id = b.next_id; queue = [] } ∷ subs_at key b) b.subscribers,
  )
  step-Tidy max (op_unsubscribe key id) b t k =
      drop_lem key id (lookup key b.subscribers) b.subscribers t k
  step-Tidy max (op_publish key x) b t k =
      publish_lem max key x (lookup key b.subscribers) b.subscribers t refl k

  abbrev pub empty_broker : Broker A
  empty_broker = record { subscribers = []; next_id = 0 }

  -- If no key has an empty set, then after any sequence of operations no key has one: the table does
  -- not grow with the subscribers that have left.
  pub run-Tidy : (max : ℕ) (ops : List (Op A)) (b : Broker A) → Tidy b → Tidy (run max ops b)
  run-Tidy max [] b t = t
  run-Tidy max (o ∷ ops) b t = run-Tidy max ops (step max o b) (step-Tidy max o b t)
