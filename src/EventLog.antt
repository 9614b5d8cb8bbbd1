-- ===== src/EventLog.antt =====
-- services/event_log.py: the rows of the activity log, newest first, with the bus that passes them on.
-- A savepoint undoes an insert that fails; `none` as organization is an event of the platform. The
-- events of a request are written in the transaction of its session (`session_scope` of
-- db/session.py), which may roll back after them; requests follow one another.
pub mod Timeline
mod Tests
use sentry_backend.Base.{
  ℕ, ◌+◌, ◌*◌, Bool, true, false, not, ◌&&◌, Option, none, some, List, [], ◌∷◌, ltb, if◌then◌else◌,
}
use sentry_backend.Base.Lists.{filter_by, count_by}
use sentry_backend.Brokers.Events.{EventBus, bus_publish}

-- What pruning and the bus read of a row, with the rest of it.
pub record EventRow : Type 0 where
  pub organization_id : Option ℕ
  pub is_heartbeat : Bool
  pub created_at : ℕ
  pub content : ℕ

pub record EventState : Type 0 where
  pub rows : List EventRow
  pub bus : EventBus EventRow

abbrev pub heartbeat_retention : ℕ
heartbeat_retention = 24 * 3_600

-- `stored` and `published` tell whether the insert and the fan-out go through; `emit` never raises.
unfoldable pub emit : (stored published : Bool) → EventRow → EventState → EventState
emit stored published row s =
    if stored
    then (if published
        then record { rows = row ∷ s.rows; bus = bus_publish row.organization_id row s.bus }
        else record s { rows = row ∷ s.rows })
    else s

-- Older than the cutoff; the clock does not go below zero.
abbrev pub is_old_heartbeat : ℕ → ℕ → EventRow → Bool
is_old_heartbeat now older_than row = row.is_heartbeat && ltb (row.created_at + older_than) now

-- The state, and how many rows are gone.
unfoldable pub prune_heartbeats : ℕ → ℕ → EventState → EventState × ℕ
prune_heartbeats now older_than s = (
  record s { rows = filter_by (λ r. not (is_old_heartbeat now older_than r)) s.rows },
  count_by (is_old_heartbeat now older_than) s.rows,
)

-- What a request does with the log, in its order.
pub data Operation : Type 0 where
  emits : (stored published : Bool) (row : EventRow) → Operation
  prunes : (now older_than : ℕ) → Operation

unfoldable pub perform : Operation → EventState → EventState
unfolding emit prune_heartbeats
perform (emits stored published row) s = emit stored published row s
perform (prunes now older_than) s = (prune_heartbeats now older_than s).0

unfoldable pub run : List Operation → EventState → EventState
unfolding perform
run [] s = s
run (o ∷ os) s = run os (perform o s)

-- A session's operations, and whether it commits; else its exception rolls them back.
pub record Session : Type 0 where
  pub operations : List Operation
  pub commits : Bool

-- A rollback undoes the rows; what has been published stays published.
unfoldable pub session_scope : Session → EventState → EventState
unfolding run
session_scope t s =
    let s' = run t.operations s in if t.commits then s' else record s' { rows = s.rows }

unfoldable pub session_scopes : List Session → EventState → EventState
unfolding session_scope
session_scopes [] s = s
session_scopes (t ∷ ts) s = session_scopes ts (session_scope t s)
