-- ===== src/Brokers.antt =====
-- The in-memory publish/subscribe brokers: services/alert_broker.py and services/live_broker.py,
-- which are one program for two keys (an organization, a camera) and two bounds, and
-- services/event_bus.py (Brokers/Events). A subscriber is an identifier with its queue, and what a
-- reader has taken from a queue is gone from it. Each operation runs without an await after it takes
-- the lock, so it is one step. The process-wide singletons and the readers' loops are left out.
pub mod Queue
pub mod Events
pub mod Delivery
mod Tests
use sentry_backend.Base.{
  ℕ, suc, ◌+◌, Bool, not, Option, none, some, List, [], ◌∷◌, map, ◌==◌, if◌then◌else◌,
}
use sentry_backend.Base.Lists.{length, filter_by, sum}
use sentry_backend.Base.Dict.{Dict, lookup, insert, erase}
use sentry_backend.Brokers.Queue.{put_drop_oldest}

pub record Sub (A : Type 0) : Type 0 where
  pub id : ℕ
  pub queue : List A

-- `next_id` is the identity of the next queue object.
pub record Broker (A : Type 0) : Type 0 where
  pub subscribers : Dict (List (Sub A))
  pub next_id : ℕ

module _ {A : Type 0} where
  abbrev pub or_empty : Option (List (Sub A)) → List (Sub A)
  or_empty none = []
  or_empty (some subs) = subs

  -- `_subscribers.get(key, set())`
  unfoldable pub subs_at : ℕ → Broker A → List (Sub A)
  subs_at key b = or_empty (lookup key b.subscribers)

  unfoldable pub subscribe : ℕ → Broker A → ℕ × Broker A
  unfolding subs_at
  subscribe key b = (
    b.next_id,
    record {
      subscribers =
          insert key (record { id = b.next_id; queue = [] } ∷ subs_at key b) b.subscribers;
      next_id = suc b.next_id;
    },
  )

  -- A set that is left empty is removed with its key.
  put_or_pop : ℕ → List (Sub A) → Dict (List (Sub A)) → Dict (List (Sub A))
  put_or_pop key [] d = erase key d
  put_or_pop key (s ∷ subs) d = insert key (s ∷ subs) d

  abbrev other_than : ℕ → Sub A → Bool
  other_than id s = not (s.id == id)

  drop_at : ℕ → ℕ → Option (List (Sub A)) → Dict (List (Sub A)) → Dict (List (Sub A))
  unfolding put_or_pop
  drop_at key id none d = d
  drop_at key id (some subs) d = put_or_pop key (filter_by (other_than id) subs) d

  unfoldable pub unsubscribe : ℕ → ℕ → Broker A → Broker A
  unfolding drop_at
  unsubscribe key id b = record b {
    subscribers = drop_at key id (lookup key b.subscribers) b.subscribers;
  }

  abbrev pub deliver : ℕ → A → Sub A → Sub A
  deliver max x s = record s { queue = put_drop_oldest max x s.queue }

  publish_at : ℕ → ℕ → A → Option (List (Sub A)) → Dict (List (Sub A)) → Dict (List (Sub A))
  publish_at max key x none d = d
  publish_at max key x (some subs) d = insert key (map (deliver max x) subs) d

  -- `max` is the module's `_QUEUE_MAX`.
  unfoldable pub publish : ℕ → ℕ → A → Broker A → Broker A
  unfolding publish_at
  publish max key x b = record b {
    subscribers = publish_at max key x (lookup key b.subscribers) b.subscribers;
  }

  -- `sum(len(s) for s in self._subscribers.values())`
  abbrev pub count_all : Dict (List (Sub A)) → ℕ
  count_all [] = 0
  count_all ((k, subs) ∷ d) = length subs + count_all d

  unfoldable pub subscriber_count : Option ℕ → Broker A → ℕ
  unfolding subs_at
  subscriber_count none b = count_all b.subscribers
  subscriber_count (some camera_id) b = length (subs_at camera_id b)

abbrev pub alert_queue_max : ℕ
alert_queue_max = 100

abbrev pub live_queue_max : ℕ
live_queue_max = 30

-- LiveBroker, by camera.
unfoldable pub live_subscribe : {A : Type 0} → ℕ → Broker A → ℕ × Broker A
live_subscribe camera_id b = subscribe camera_id b

unfoldable pub live_unsubscribe : {A : Type 0} → ℕ → ℕ → Broker A → Broker A
live_unsubscribe camera_id id b = unsubscribe camera_id id b

unfoldable pub live_publish : {A : Type 0} → ℕ → A → Broker A → Broker A
live_publish camera_id x b = publish live_queue_max camera_id x b
