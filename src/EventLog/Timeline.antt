-- ===== src/EventLog/Timeline.antt =====
-- Theorems on services/event_log.py over sequences of sessions that commit or roll back.
use sentry_backend.Base.{
  ℕ, ◌≡◌, refl, ap, ◌∙◌, Bool, true, false, not, ◌&&◌, Option, List, [], ◌∷◌, ◌++◌, if◌then◌else◌,
  arith, Bool-cases, inl, inr,
}
use sentry_backend.Base.Lists.{filter_by}
use sentry_backend.Brokers.Events.{EventBus, publish_all}
use sentry_backend.EventLog.{
  EventRow, EventState, emit, is_old_heartbeat, prune_heartbeats, Operation, emits, prunes, run,
  Session, session_scope, session_scopes,
}

abbrev pub lasting : EventRow → Bool
lasting row = not row.is_heartbeat

-- The events stored that are no heartbeats, newest first, after those that are there.
abbrev pub recorded : List Operation → List EventRow → List EventRow
recorded [] rows = rows
recorded (emits stored published row ∷ os) rows =
    recorded os (if stored && lasting row then row ∷ rows else rows)
recorded (prunes now older_than ∷ os) rows = recorded os rows

-- The events stored and passed on, oldest first.
abbrev pub passed_on : List Operation → List (Option ℕ × EventRow)
passed_on [] = []
passed_on (emits stored published row ∷ os) =
    let more = passed_on os in
    if stored && published then (row.organization_id, row) ∷ more else more
passed_on (prunes now older_than ∷ os) = passed_on os

-- The events that are no heartbeats, of the sessions that commit.
abbrev pub committed : List Session → List EventRow → List EventRow
committed [] rows = rows
committed (t ∷ ts) rows = committed ts (if t.commits then recorded t.operations rows else rows)

-- The events passed on, of all sessions.
abbrev pub heard : List Session → List (Option ℕ × EventRow)
heard [] = []
heard (t ∷ ts) = passed_on t.operations ++ heard ts

lasting-pruned :
    (now older_than : ℕ) (rows : List EventRow)
    → filter_by lasting (filter_by (λ r. not (is_old_heartbeat now older_than r)) rows)
      ≡ filter_by lasting rows
lasting-pruned now older_than [] = refl
lasting-pruned now older_than (r ∷ rows) = ground (arith, lasting-pruned now older_than rows)

lasting-cons :
    (row : EventRow) (rows : List EventRow)
    → filter_by lasting (row ∷ rows)
      ≡ (if lasting row then row ∷ filter_by lasting rows else filter_by lasting rows)
lasting-cons row rows = ground arith

-- What the operations of one session leave before it ends.
run-Keeps :
    (os : List Operation) (s : EventState)
    → (filter_by lasting (run os s).rows ≡ recorded os (filter_by lasting s.rows))
      × ((run os s).bus ≡ publish_all (passed_on os) s.bus)
unfolding run emit prune_heartbeats
run-Keeps [] s = (refl, refl)
run-Keeps (prunes now older_than ∷ os) s =
    let (rows, bus) = run-Keeps os (prune_heartbeats now older_than s).0 in
    (rows ∙ ap (λ rs. recorded os rs) (lasting-pruned now older_than s.rows), bus)
run-Keeps (emits false published row ∷ os) s = run-Keeps os s
run-Keeps (emits true false row ∷ os) s =
    let (rows, bus) = run-Keeps os (record s { rows = row ∷ s.rows }) in
    (rows ∙ ap (λ rs. recorded os rs) (lasting-cons row s.rows), bus)
run-Keeps (emits true true row ∷ os) s =
    let (rows, bus) = run-Keeps os (emit true true row s) in
    (rows ∙ ap (λ rs. recorded os rs) (lasting-cons row s.rows), bus)

publish_all-append :
    (es fs : List (Option ℕ × EventRow)) (b : EventBus EventRow)
    → publish_all fs (publish_all es b) ≡ publish_all (es ++ fs) b
publish_all-append [] fs b = refl
publish_all-append (e ∷ es) fs b = publish_all-append es fs _

session_scope-Keeps :
    (t : Session) (s : EventState)
    → (filter_by lasting (session_scope t s).rows ≡ (
        if t.commits
        then recorded t.operations (filter_by lasting s.rows)
        else filter_by lasting s.rows))
      × ((session_scope t s).bus ≡ publish_all (passed_on t.operations) s.bus)
unfolding session_scope
session_scope-Keeps t s =
    let (rows, bus) = run-Keeps t.operations s in
    elim (Bool-cases t.commits) [ inl e ↦ rw e (rows, bus) | inr e ↦ rw e (refl, bus) ]

-- After any sequence of sessions the log has exactly the events that are no heartbeats and were stored
-- in sessions that committed, in their order; and the bus is that to which exactly the stored events
-- that were passed on have been published, in their order, those of sessions that rolled back included.
pub session_scopes-Keeps :
    (ts : List Session) (s : EventState)
    → (filter_by lasting (session_scopes ts s).rows ≡ committed ts (filter_by lasting s.rows))
      × ((session_scopes ts s).bus ≡ publish_all (heard ts) s.bus)
unfolding session_scopes
session_scopes-Keeps [] s = (refl, refl)
session_scopes-Keeps (t ∷ ts) s =
    let (rows, bus) = session_scope-Keeps t s in
    let (rows', bus') = session_scopes-Keeps ts (session_scope t s) in
    (
      rows' ∙ ap (λ rs. committed ts rs) rows,
      bus'
          ∙ ap (λ b. publish_all (heard ts) b) bus
          ∙ publish_all-append (passed_on t.operations) (heard ts) s.bus,
    )
