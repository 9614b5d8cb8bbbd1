-- ===== src/Pairing.antt =====
-- repository/agent_repo.py, repository/ai_node_repo.py, and the pairing of a computer and of an AI node in
-- api/v1/agents.py and api/v1/ai_nodes.py. A code is a text; the codes that `secrets` draws are given.
-- `Scope` is what a code is for: a store, or nothing for an AI node. A row lock serializes two pairings
-- with one code, so that one follows the other. The check and the insert of create_pairing_code are one
-- step here; no lock and no unique index makes them one in the program. Events are not recorded.
pub mod Codes
pub mod Once
pub mod Admitted
mod Tests
use sentry_backend.Base.{
  ℕ, zero, suc, ◌+◌, ◌*◌, Bool, true, false, not, ◌&&◌, ◌||◌, Option, none, some, List, [], ◌∷◌,
  leb, ltb, ◌==◌, if◌then◌else◌, is_some,
}
use sentry_backend.Base.Lists.{find_by, filter_by, take}
use sentry_backend.Base.Text.{Text, text_beq}
use sentry_backend.Base.Action.{Action, Result, ok, err, http}

pub record PairingCode (Scope : Type 0) : Type 0 where
  pub id : ℕ
  pub code : Text
  pub scope : Scope
  pub created_by_user_id : Option ℕ
  pub expires_at : ℕ
  pub consumed_at : Option ℕ
  pub device_id : Option ℕ

-- `scalar_one_or_none`; more than one row is an uncaught error.
abbrev pub one_or_none : {A : Type 0} → List A → Result (Option A)
one_or_none [] = ok none
one_or_none (x ∷ []) = ok (some x)
one_or_none (x ∷ y ∷ xs) = err (http 500)

module _ {Scope : Type 0} where
  -- Not consumed and not expired.
  abbrev pub is_active_code : Text → ℕ → PairingCode Scope → Bool
  is_active_code code now c =
      text_beq c.code code && not (is_some c.consumed_at) && ltb now c.expires_at

  unfoldable pub active_code :
      ℕ → Text → List (PairingCode Scope) → Result (Option (PairingCode Scope))
  active_code now code codes = one_or_none (filter_by (is_active_code code now) codes)

  abbrev pub new_code : ℕ → ℕ → ℕ → Scope → Option ℕ → Text → PairingCode Scope
  new_code id now ttl scope user draw = record {
    id = id;
    code = draw;
    scope = scope;
    created_by_user_id = user;
    expires_at = now + ttl;
    consumed_at = none;
    device_id = none;
  }

  -- A draw that is active is dropped.
  abbrev pub use_draw :
      PairingCode Scope
      → List (PairingCode Scope)
      → Result (PairingCode Scope) × List (PairingCode Scope)
      → Result (Option (PairingCode Scope))
      → Result (PairingCode Scope) × List (PairingCode Scope)
  use_draw row codes retry (err e) = (err e, codes)
  use_draw row codes retry (ok (some c)) = retry
  use_draw row codes retry (ok none) = (ok row, row ∷ codes)

  -- The first of the drawn codes that is not active, with a row for it.
  unfoldable pub add_code :
      ℕ
      → ℕ
      → ℕ
      → Scope
      → Option ℕ
      → List Text
      → List (PairingCode Scope)
      → Result (PairingCode Scope) × List (PairingCode Scope)
  add_code id now ttl scope user [] codes = (err (http 500), codes)
  add_code id now ttl scope user (draw ∷ draws) codes =
      use_draw (new_code id now ttl scope user draw) codes
        (add_code id now ttl scope user draws codes) (active_code now draw codes)

  -- Ten draws at most.
  unfoldable pub create_pairing_code :
      ℕ
      → ℕ
      → ℕ
      → Scope
      → Option ℕ
      → List Text
      → List (PairingCode Scope)
      → Result (PairingCode Scope) × List (PairingCode Scope)
  unfolding add_code active_code
  create_pairing_code id now ttl scope user draws codes =
      add_code id now ttl scope user (take 10 draws) codes

  unfoldable pub consume_pairing_code :
      ℕ → Text → List (PairingCode Scope) → Result (Option (PairingCode Scope))
  consume_pairing_code now code codes = one_or_none (filter_by (is_active_code code now) codes)

  unfoldable pub mark_consumed : ℕ → ℕ → ℕ → List (PairingCode Scope) → List (PairingCode Scope)
  mark_consumed now id device [] = []
  mark_consumed now id device (c ∷ codes) =
      (if c.id == id then record c { consumed_at = some now; device_id = some device } else c)
      ∷ mark_consumed now id device codes

abbrev pub agent_code_ttl : ℕ
agent_code_ttl = 10 * 60

abbrev pub node_code_ttl : ℕ
node_code_ttl = 30 * 60

pub record Place : Type 0 where
  pub organization_id : ℕ
  pub store_id : ℕ

pub record Agent : Type 0 where
  pub id : ℕ
  pub organization_id : ℕ
  pub store_id : ℕ
  pub name : Option Text
  pub is_active : Bool
  pub created_at : ℕ
  pub last_seen_at : Option ℕ
  pub paired_by_user_id : Option ℕ

pub record PairDb : Type 0 where
  pub stores : List ℕ
  pub codes : List (PairingCode Place)
  pub agents : List Agent
  pub next_id : ℕ

abbrev pub has_name : Text → Option Text → Bool
has_name name none = false
has_name name (some n) = text_beq n name

-- Seen later, or at the same time and created later; never seen comes last.
abbrev seen_before : Option ℕ → Option ℕ → Bool
seen_before none none = false
seen_before none (some b) = true
seen_before (some a) none = false
seen_before (some a) (some b) = ltb a b

abbrev pub precedes : Agent → Agent → Bool
precedes a b =
    seen_before b.last_seen_at a.last_seen_at
    || not (seen_before a.last_seen_at b.last_seen_at) && ltb b.created_at a.created_at

-- The first in the order of the query.
unfoldable pub first_agent : List Agent → Option Agent
first_agent [] = none
first_agent (a ∷ agents) = elim (first_agent agents) [
  | none ↦ some a
  | some b ↦ if precedes b a then some b else some a
]

unfoldable pub get_agent_by_name : ℕ → Text → List Agent → Option Agent
unfolding first_agent
get_agent_by_name store_id name agents =
    first_agent (filter_by (λ a. a.store_id == store_id && has_name name a.name) agents)

-- The computer of this name in the store, where a name is given.
unfoldable pub known_agent : ℕ → Option Text → List Agent → Option Agent
known_agent store_id none agents = none
known_agent store_id (some []) agents = none
known_agent store_id (some (c ∷ name)) agents = get_agent_by_name store_id (c ∷ name) agents

unfoldable pub put_agent : Agent → List Agent → List Agent
put_agent new [] = []
put_agent new (a ∷ agents) =
    let rest = put_agent new agents in if a.id == new.id then new ∷ agents else a ∷ rest

-- `reactivate_agent`, or `create_agent`.
unfoldable pub place_agent :
    ℕ → PairingCode Place → Option Text → Option Agent → PairDb → Agent × PairDb
unfolding put_agent
place_agent now c name (some a) db =
    let b = record a { is_active = true; last_seen_at = some now } in
    (b, record db { agents = put_agent b db.agents })
place_agent now c name none db =
    let b : Agent = record {
      id = db.next_id;
      organization_id = c.scope.organization_id;
      store_id = c.scope.store_id;
      name = name;
      is_active = true;
      created_at = now;
      last_seen_at = some now;
      paired_by_user_id = c.created_by_user_id;
    } in
    (b, record db { agents = b ∷ db.agents; next_id = suc db.next_id })

unfoldable pub pair_with :
    ℕ → Option Text → Result (Option (PairingCode Place)) → Action PairDb Agent
unfolding place_agent mark_consumed known_agent get_agent_by_name
pair_with now name (err e) db = (err e, db)
pair_with now name (ok none) db = (err (http 400), db)
pair_with now name (ok (some c)) db =
    if is_some (find_by (λ s. s == c.scope.store_id) db.stores)
    then (let (a, db') = place_agent now c name (known_agent c.scope.store_id name db.agents) db in
        (ok a, record db' { codes = mark_consumed now c.id a.id db'.codes }))
    else (err (http 404), db)

-- `code` is the text of the request without the spaces around it.
unfoldable pub pair_agent : ℕ → Text → Option Text → Action PairDb Agent
unfolding pair_with consume_pairing_code
pair_agent now code name db = pair_with now name (consume_pairing_code now code db.codes) db

-- An AI node, as far as pairing goes; its code is for no store.
pub record AiNode : Type 0 where
  pub id : ℕ
  pub name : Option Text
  pub hostname : Option Text
  pub paired_by_user_id : Option ℕ

pub record NodeDb : Type 0 where
  pub node_codes : List (PairingCode (Unit {0}))
  pub nodes : List AiNode
  pub next_id : ℕ

unfoldable pub pair_node_with :
    ℕ → Option Text → Option Text → Result (Option (PairingCode (Unit {0}))) → Action NodeDb AiNode
unfolding mark_consumed
pair_node_with now name hostname (err e) db = (err e, db)
pair_node_with now name hostname (ok none) db = (err (http 400), db)
pair_node_with now name hostname (ok (some c)) db =
    let n : AiNode = record {
      id = db.next_id;
      name = name;
      hostname = hostname;
      paired_by_user_id = c.created_by_user_id;
    } in
    (
      ok n,
      record {
        node_codes = mark_consumed now c.id n.id db.node_codes;
        nodes = n ∷ db.nodes;
        next_id = suc db.next_id;
      },
    )

unfoldable pub pair_ai_node : ℕ → Text → Option Text → Option Text → Action NodeDb AiNode
unfolding pair_node_with consume_pairing_code
pair_ai_node now code name hostname db =
    pair_node_with now name hostname (consume_pairing_code now code db.node_codes) db
