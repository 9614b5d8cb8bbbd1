-- ===== src/EventLog/Tests.antt =====
-- The theorem on the activity log at a concrete input.
use sentry_backend.Base.{◌≡◌, true, false, none, some, List, [], ◌∷◌}
use sentry_backend.Base.Lists.{filter_by}
use sentry_backend.Brokers.Events.{publish_all}
use sentry_backend.EventLog.{EventRow, EventState, emits, prunes, Session, session_scopes}
use sentry_backend.EventLog.Timeline.{lasting, committed, heard, session_scopes-Keeps}

abbrev login_row : EventRow
login_row = record { organization_id = some 7; is_heartbeat = false; created_at = 10; content = 1 }

abbrev ping : EventRow
ping = record { organization_id = none; is_heartbeat = true; created_at = 20; content = 2 }

abbrev quiet : EventState
quiet = record {
  rows = [];
  bus = record { subs = record { id = 0; org_filter = none; queue = [] } ∷ []; next_id = 1 };
}

-- A session that commits, one that rolls back after a login was passed on, and one that prunes.
abbrev day : List Session
day =
    record { operations = emits true true login_row ∷ emits true true ping ∷ []; commits = true }
    ∷ record { operations = emits true true login_row ∷ []; commits = false }
    ∷ record { operations = emits false true login_row ∷ prunes 90_000 86_400 ∷ []; commits = true }
    ∷ []

session_scopes-Keeps_example :
    (filter_by lasting (session_scopes day quiet).rows
      ≡ committed day (filter_by lasting quiet.rows))
    × ((session_scopes day quiet).bus ≡ publish_all (heard day) quiet.bus)
session_scopes-Keeps_example = session_scopes-Keeps day quiet
