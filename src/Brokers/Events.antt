-- ===== src/Brokers/Events.antt =====
-- services/event_bus.py: the broker of the activity log, which routes by tenancy. A subscriber with no
-- organization is a platform subscriber. A payload goes to the subscribers of the bus in one step.
use sentry_backend.Base.{
  ℕ, suc, ◌≤◌, ◌≡◌, refl, sym, ap, ◌∙◌, Bool, true, false, not, Option, none, some, List, [], ◌∷◌,
  ◌++◌, map, ◌==◌, if◌then◌else◌, arith, Bool-cases, inl, inr,
}
use sentry_backend.Base.Lists.{length, filter_by, All}
use sentry_backend.Brokers.Queue.{put_drop_oldest, put_all, last_n, put_all_last}

pub record EventSub (A : Type 0) : Type 0 where
  pub id : ℕ
  pub org_filter : Option ℕ
  pub queue : List A

pub record EventBus (A : Type 0) : Type 0 where
  pub subs : List (EventSub A)
  pub next_id : ℕ

abbrev pub event_queue_max : ℕ
event_queue_max = 200

-- `org_filter is None or (organization_id is not None and org_filter == organization_id)`
unfoldable pub is_target : Option ℕ → Option ℕ → Bool
is_target none organization_id = true
is_target (some f) none = false
is_target (some f) (some o) = f == o

abbrev pub is_own : ℕ → Option ℕ → Bool
is_own f none = false
is_own f (some o) = o == f

module _ {A : Type 0} where
  unfoldable pub bus_subscribe : Option ℕ → EventBus A → ℕ × EventBus A
  bus_subscribe org_filter b = (
    b.next_id,
    record {
      subs = record { id = b.next_id; org_filter = org_filter; queue = [] } ∷ b.subs;
      next_id = suc b.next_id;
    },
  )

  unfoldable pub bus_unsubscribe : ℕ → EventBus A → EventBus A
  bus_unsubscribe id b = record b { subs = filter_by (λ s. not (s.id == id)) b.subs }

  unfoldable pub offer : Option ℕ → A → EventSub A → EventSub A
  unfolding is_target
  offer organization_id x s =
      if is_target s.org_filter organization_id
      then record s { queue = put_drop_oldest event_queue_max x s.queue }
      else s

  unfoldable pub bus_publish : Option ℕ → A → EventBus A → EventBus A
  unfolding offer
  bus_publish organization_id x b = record b { subs = map (offer organization_id x) b.subs }

  -- An event with its organization.
  abbrev pub publish_all : List (Option ℕ × A) → EventBus A → EventBus A
  publish_all [] b = b
  publish_all ((o, x) ∷ es) b = publish_all es (bus_publish o x b)

  -- The events that are routed to a subscriber.
  abbrev pub routed : Option ℕ → List (Option ℕ × A) → List A
  routed f [] = []
  routed f ((o, x) ∷ es) = let more = routed f es in if is_target f o then x ∷ more else more

  -- A subscriber after the bus has published the events.
  abbrev pub received : List (Option ℕ × A) → EventSub A → EventSub A
  received es s = record s { queue = put_all event_queue_max (routed s.org_filter es) s.queue }

  map-map :
      (f g h : EventSub A → EventSub A) (subs : List (EventSub A))
      → ((s : EventSub A) → g (f s) ≡ h s)
      → map g (map f subs) ≡ map h subs
  map-map f g h [] e = refl
  map-map f g h (s ∷ subs) e = rw (e s, map-map f g h subs e) refl

  offer_then :
      (o : Option ℕ) (x : A) (es : List (Option ℕ × A)) (s : EventSub A)
      → received es (offer o x s) ≡ received ((o, x) ∷ es) s
  unfolding offer
  offer_then o x es s = elim (Bool-cases (is_target s.org_filter o)) [
    | inl e ↦ rw e refl
    | inr e ↦ rw e refl
  ]

  map_id :
      (h : EventSub A → EventSub A) (subs : List (EventSub A))
      → ((s : EventSub A) → h s ≡ s)
      → map h subs ≡ subs
  map_id h [] e = refl
  map_id h (s ∷ subs) e = rw (e s, map_id h subs e) refl

  publish_all_lem :
      (es : List (Option ℕ × A)) (b : EventBus A)
      → publish_all es b ≡ record b { subs = map (received es) b.subs }
  unfolding bus_publish
  publish_all_lem [] b =
      ap (λ l. record b { subs = l }) (sym (map_id (received []) b.subs (λ s. refl)))
  publish_all_lem ((o, x) ∷ es) b =
      publish_all_lem es (bus_publish o x b)
      ∙ ap (λ l. record b { subs = l })
          (map-map (offer o x) (received es) (received ((o, x) ∷ es)) b.subs (offer_then o x es))

  abbrev pub holds : List (Option ℕ × A) → EventSub A → EventSub A
  holds es s = record s { queue = last_n event_queue_max (s.queue ++ routed s.org_filter es) }

  holds_lem :
      (es : List (Option ℕ × A)) (subs : List (EventSub A))
      → All (λ s. length s.queue ≤ event_queue_max) subs
      → map (received es) subs ≡ map (holds es) subs
  holds_lem es [] fits = refl
  holds_lem es (s ∷ subs) fits =
      rw
        (
          put_all_last event_queue_max (routed s.org_filter es) s.queue (omega arith) fits.0,
          holds_lem es subs fits.1,
        )
        refl

  -- After the bus has published any events, the queue of every subscriber that was within the bound
  -- holds the newest 200 of what it had and the events routed to it, in order.
  pub publish_all-Routes :
      (es : List (Option ℕ × A)) (b : EventBus A)
      → All (λ s. length s.queue ≤ event_queue_max) b.subs
      → (publish_all es b).subs ≡ map (holds es) b.subs
  publish_all-Routes es b fits = ap (λ c. c.subs) (publish_all_lem es b) ∙ holds_lem es b.subs fits

  -- What is routed to an organization is exactly what was published under it, and a platform
  -- subscriber is routed everything.
  pub routed_iff :
      (es : List (Option ℕ × A)) (f : ℕ)
      → (routed none es ≡ map (λ e. e.1) es)
        × (routed (some f) es ≡ map (λ e. e.1) (filter_by (λ e. is_own f e.0) es))
  unfolding is_target
  routed_iff [] f = (refl, refl)
  routed_iff ((none, x) ∷ es) f =
      (ground (arith, (routed_iff es f).0), ground (arith, (routed_iff es f).1))
  routed_iff ((some o, x) ∷ es) f =
      (ground (arith, (routed_iff es f).0), ground (arith, (routed_iff es f).1))
