-- ===== src/Brokers/Tests.antt =====
-- The brokers' theorems at concrete inputs.
use sentry_backend.Base.{ℕ, ◌≡◌, refl, Option, none, some, List, [], ◌∷◌, map, arith}
use sentry_backend.Base.Dict.{lookup}
use sentry_backend.Brokers.{Broker, subscribe}
use sentry_backend.Brokers.Queue.{put_drop_oldest, last_n}
use sentry_backend.Brokers.Events.{EventBus, publish_all, holds, publish_all-Routes}
use sentry_backend.Brokers.Delivery.{
  Op, op_subscribe, op_unsubscribe, op_publish, run, sent, find_at, Tidy, empty_broker,
  subscriber-Receives,
}

abbrev no_one : Broker ℕ
no_one = empty_broker

abbrev ops : List (Op ℕ)
ops =
    op_publish 4 10
    ∷ op_subscribe 4
    ∷ op_publish 5 11
    ∷ op_publish 4 12
    ∷ op_unsubscribe 4 1
    ∷ op_publish 4 13
    ∷ []

put_drop_oldest-run : put_drop_oldest {A = ℕ} 2 9 (7 ∷ 8 ∷ []) ≡ 8 ∷ 9 ∷ []
unfolding put_drop_oldest
put_drop_oldest-run = refl

subscriber-Receives_example :
    find_at 4 (subscribe 4 no_one).0 (run 2 ops (subscribe 4 no_one).1)
    ≡ some (record { id = 0; queue = last_n 2 (sent 4 ops) })
subscriber-Receives_example =
    subscriber-Receives 2 4 no_one ops (omega arith) (tt, (tt, (tt, (tt, (refl, (tt, tt))))))

no_one-Tidy : Tidy no_one
no_one-Tidy k = unfold lookup in refl

abbrev bus : EventBus ℕ
bus = record {
  subs =
      record { id = 0; org_filter = none; queue = [] }
      ∷ record { id = 1; org_filter = some 6; queue = 3 ∷ [] }
      ∷ [];
  next_id = 2;
}

abbrev events : List (Option ℕ × ℕ)
events = (none, 20) ∷ (some 6, 21) ∷ (some 7, 22) ∷ []

publish_all-Routes_example : (publish_all events bus).subs ≡ map (holds events) bus.subs
publish_all-Routes_example = publish_all-Routes events bus (omega arith, (omega arith, tt))
