-- ===== src/Lib.antt =====
-- The control plane of Sentry (src/sentry_backend of the repository): organizations own stores with
-- cameras; an AI node scores the people it sees and pushes live metadata and verified alerts; the
-- backend keeps the evidence, notifies staff, watches the nodes and charges the organizations.
-- Paths below are from src/sentry_backend.
--
-- Base: what all parts share: Boolean tests, integers (Base/Int), lists, dicts and sets as lists, and a
--   handler that keeps state and raises (Base/Action; a transaction rolls back what a raise leaves).
-- Billing: services/billing, db/models/billing.py, api/v1/billing.py and api/v1/admin_billing.py. A
--   database record holds the tables; Models has the rows, Pricing, Status, Ledger, Promo and
--   Charger the modules of the same names, Api the handlers. Invariant states what the tables keep,
--   and Api/Reach every order of handlers, charging passes and single turns of a pass (a turn may work
--   from a stale snapshot, as with several replicas). Deleting an organization is not among these
--   steps: it cascades to redemptions, whose codes keep their count.
-- Watchdog: the pure transitions of services/node_watchdog.py, with theorems in Watchdog/Nodes
--   and Watchdog/Cameras.
-- Brokers: services/alert_broker.py and services/live_broker.py, one model for both, with the bounded
--   queue of Brokers/Queue; Brokers/Events is services/event_bus.py. Brokers/Delivery runs
--   sequences of operations of any subscribers.
-- Live: the risk tracker, ThresholdHandler of services/threshold_handler.py.
-- Evidence: the clip and alert rows with the files on disk: Evidence/Live is create_live_alert of
--   services/threshold_handler.py with the debounce query of repository/alert_repo.py, Evidence/Level
--   services/alert_service.py and the clip window, Evidence/Retention services/retention.py and
--   Evidence/OrgDelete services/org_delete.py.
-- Tenancy: deps/tenancy.py and the handlers of api/v1/org_team.py that change the team, with their
--   queries in repository; Tenancy/Access and Tenancy/Invitations have their theorems.
-- Auth: security.py, deps/auth.py, deps/agent_auth.py, deps/ai_node_auth.py, deps/service.py,
--   services/auth_service.py, repository/user_repo.py, api/v1/auth.py and the MediaMTX authorizer of
--   api/v1/internal.py. Auth/Token creates and reads tokens, Auth/Doors has the dependencies that guard
--   the routes, Auth/Session login, logout and refresh, Auth/Media the authorizer.
-- Cameras: repository/camera_repo.py and the camera handlers of a paired computer in api/v1/agents.py
--   (Cameras/Handlers): the paths of streams (Cameras/Free, Cameras/Paths, Cameras/Slugs), every order of
--   the operations (Cameras/Kept, Cameras/Reach), and the stream tokens, with Auth and Billing
--   (Cameras/Streams).
-- Footfall: services/footfall_aggregator.py with the upserts and insert_paths of
--   repository/analytics_repo.py: the counting of a frame (Footfall/Frame), what is forgotten and banked
--   (Footfall/Prune), the flush (Footfall/Flush), and the visitor numbers (Footfall/Numbers). The
--   geometry on floats is an interface.
-- Pairing: repository/agent_repo.py and repository/ai_node_repo.py with the pairing handlers of
--   api/v1/agents.py and api/v1/ai_nodes.py: the codes (Pairing/Codes), their use (Pairing/Once), and the
--   paired computer at the door of Auth (Pairing/Admitted).
-- EventLog: services/event_log.py over the bus of Brokers/Events, in sessions of db/session.py that
--   commit or roll back.
--
-- Numbers: identifiers, times (microseconds; seconds in Auth, Cameras, Pairing and EventLog),
-- dates (days), risks and confidences (in a fixed unit) are natural numbers, amounts of money are
-- integers, as in Python; a posting whose amount or new balance does not fit its INTEGER column
-- raises DataError, and the other INTEGER columns are taken to be wide enough. The search for a
-- free camera path and the digits of a number run on fuel, one more turn than there are paths, or
-- one more than the number, which is enough; all other loops are over finite lists.
--
-- Parameters: the JWT library and uuid with the laws that the code relies on, bcrypt, the local
-- date of a time (the time zone database), the decoding of a node's telemetry (json and pydantic),
-- which files the operating system refuses to remove, a generated promo code and the drawn pairing
-- codes, and what other requests do between two sessions of one request.
--
-- Transactions run one after another: a session whose statements meet another's commit in between is
-- modelled where a definition takes the tables as they then are (the charging turns, the sessions of a
-- live alert, the steps of a sweep), and nowhere else. So a profile that was read before its row lock and
-- is not read again under it, two requests that insert one pairing code at once, and events of sessions
-- that overlap are left out. A clip window is computed exactly where the program has floats.
--
-- Not modelled: HTTP, SQL, ffmpeg, e-mail and Telegram themselves; the texts of messages and logs; the
-- background loops around the modelled passes; the float geometry and the report and
-- listing queries.
pub mod Base
pub mod Billing
pub mod Watchdog
pub mod Brokers
pub mod Live
pub mod Evidence
pub mod Tenancy
pub mod Auth
pub mod Cameras
pub mod Footfall
pub mod Pairing
pub mod EventLog
