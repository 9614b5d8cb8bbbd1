-- ===== src/Pairing/Admitted.antt =====
-- Theorems on pairing and the door of agents together: api/v1/agents.py and deps/agent_auth.py.
use sentry_backend.Base.{
  ℕ, ◌+◌, ◌≤◌, ◌≡◌, refl, ap, subst, ◌∙◌, Bool, true, ◌&&◌, Option, none, some, List, [], ◌∷◌, ◌++◌,
  map, leb, ◌==◌, if◌then◌else◌, is_some, arith, Bool-cases, inl, inr, ==_refl,
}
use sentry_backend.Base.Lists.{filter_by, find_by, some_inj, count_by}
use sentry_backend.Base.Text.{Text}
use sentry_backend.Base.Action.{Result, ok, err, ok-injective}
use sentry_backend.Auth.{Jwt, JwtLaws, Uuid, Settings, Device, Account, AuthDb, agent}
use sentry_backend.Auth.Token.{device_payload, device_ttl, create_agent_token}
use sentry_backend.Auth.Doors.{bearer_title, admit_device, get_current_agent}
use sentry_backend.Auth.Doors.Admits.{get_current_agent-header}
use sentry_backend.Pairing.{
  PairingCode, Place, Agent, PairDb, consume_pairing_code, first_agent, get_agent_by_name,
  known_agent, put_agent, place_agent, pair_with, pair_agent, precedes, has_name,
}

abbrev same_id : ℕ → List Agent → ℕ
same_id id agents = count_by (λ a. a.id == id) agents

first_agent-same_id :
    (agents : List Agent) (a : Agent) → first_agent agents ≡ some a → 1 ≤ same_id a.id agents
unfolding first_agent
first_agent-same_id [] a h = ground (arith, h)
first_agent-same_id (b ∷ agents) a h =
    go (λ c e. first_agent-same_id agents c e) (first_agent agents) refl h
  where
    own : (b a : Agent) → b ≡ a → 1 ≤ same_id a.id (b ∷ agents)
    own b a e = ground (arith, ap (λ x. x.id) e)

    go :
        ((c : Agent) → first_agent agents ≡ some c → 1 ≤ same_id c.id agents)
        → (o : Option Agent) → first_agent agents ≡ o
        → elim o [ none ↦ some b | some c ↦ if precedes c b then some c else some b ] ≡ some a
        → 1 ≤ same_id a.id (b ∷ agents)
    go ih none e h = own b a (some_inj h)
    go ih (some c) e h = elim (Bool-cases (precedes c b)) [
      | inl before ↦ ground (arith, ih a (e ∙ (rw before at h)))
      | inr after ↦ own b a (some_inj (rw after at h))
    ]

filter_same_id :
    (p : Agent → Bool) (id : ℕ) (agents : List Agent)
    → same_id id (filter_by p agents) ≤ same_id id agents
filter_same_id p id [] = omega arith
filter_same_id p id (a ∷ agents) = ground (arith, filter_same_id p id agents)

find-put_agent :
    (new : Agent) (agents : List Agent)
    → 1 ≤ same_id new.id agents
    → find_by (λ a. a.id == new.id) (put_agent new agents) ≡ some new
unfolding put_agent
find-put_agent new [] h = absurd (omega (arith, h))
find-put_agent new (a ∷ agents) h = elim (Bool-cases (a.id == new.id)) [
  | inl hit ↦ rw hit (ground arith)
  | inr miss ↦ rw (miss, find_by, miss) (find-put_agent new agents (ground (arith, h, miss)))
]

abbrev pub device_of : Agent → Device
device_of a = record { id = a.id; is_active = a.is_active }

-- The tables as the dependencies read them.
abbrev pub auth_view : List Account → List Device → PairDb → AuthDb
auth_view users nodes db = record {
  users = users;
  agents = map device_of db.agents;
  ai_nodes = nodes;
}

find-device :
    (id : ℕ) (agents : List Agent) (a : Agent)
    → find_by (λ b. b.id == id) agents ≡ some a
    → find_by (λ d. d.id == id) (map device_of agents) ≡ some (device_of a)
find-device id [] a h = ground (arith, h)
find-device id (b ∷ agents) a h = elim (Bool-cases (b.id == id)) [
  | inl hit ↦
      rw (find_by, hit)
        (ap (λ o. elim o [ none ↦ none | some r ↦ some (device_of r) ]) (rw (find_by, hit) at h))
  | inr miss ↦ rw (find_by, miss) (find-device id agents a (rw (find_by, miss) at h))
]

known-same_id :
    (store_id : ℕ) (name : Option Text) (agents : List Agent) (a : Agent)
    → known_agent store_id name agents ≡ some a
    → 1 ≤ same_id a.id agents
unfolding known_agent get_agent_by_name
known-same_id store_id none agents a h = ground (arith, h)
known-same_id store_id (some []) agents a h = ground (arith, h)
known-same_id store_id (some (c ∷ name)) agents a h =
    let p : Agent → Bool = λ b. b.store_id == store_id && has_name (c ∷ name) b.name in
    omega (arith, first_agent-same_id (filter_by p agents) a h, filter_same_id p a.id agents)

-- The computer that a pairing places is active and is the row of its id.
placed_row :
    (now : ℕ) (c : PairingCode Place) (name : Option Text) (o : Option Agent) (db : PairDb)
    → known_agent c.scope.store_id name db.agents ≡ o
    → let r = place_agent now c name o db in
      (find_by (λ a. a.id == r.0.id) r.1.agents ≡ some r.0) × (r.0.is_active ≡ true)
unfolding place_agent
placed_row now c name none db h = (ground arith, refl)
placed_row now c name (some a) db h = (
  find-put_agent (record a { is_active = true; last_seen_at = some now }) db.agents
      (known-same_id c.scope.store_id name db.agents a h),
  refl,
)

paired_row :
    (now : ℕ) (name : Option Text) (r : Result (Option (PairingCode Place))) (db : PairDb)
    (a : Agent)
    → (pair_with now name r db).0 ≡ ok a
    → (find_by (λ b. b.id == a.id) (pair_with now name r db).1.agents ≡ some a)
      × (a.is_active ≡ true)
unfolding pair_with
paired_row now name (err e) db a h = ground (arith, h)
paired_row now name (ok none) db a h = ground (arith, h)
paired_row now name (ok (some c)) db a h =
    elim (Bool-cases (is_some (find_by (λ s. s == c.scope.store_id) db.stores))) [
      | inl there ↦
          let o = known_agent c.scope.store_id name db.agents in
          let e = ok-injective (rw there at h) in
          rw there (
            subst
              (λ b.
                (find_by (λ x. x.id == b.id) (place_agent now c name o db).1.agents ≡ some b)
                × (b.is_active ≡ true))
              e (placed_row now c name o db refl))
      | inr gone ↦ ground (arith, rw gone at h)
    ]

-- A computer that has paired, by a new row or by the row that its store has under its name, is let in
-- with the token that the pairing answers, as this row, for the year that the token lasts.
pub pair_agent-get_current_agent :
    (j : Jwt) (u : Uuid) (settings : Settings)
    → JwtLaws j
    → ((n : ℕ) → u.parse (u.str n) ≡ some n)
    → (now later : ℕ) (code : Text) (name : Option Text) (db : PairDb) (a : Agent)
      (users : List Account) (nodes : List Device)
    → leb later (now + device_ttl) ≡ true
    → (pair_agent now code name db).0 ≡ ok a
    → get_current_agent j u settings later
        (auth_view users nodes (pair_agent now code name db).1)
        (some (bearer_title ++ create_agent_token j u settings now a.id))
      ≡ ok (device_of a)
unfolding pair_agent create_agent_token admit_device
pair_agent-get_current_agent j u settings laws parse now later code name db a users nodes fresh h =
    let (row, active) = paired_row now name (consume_pairing_code now code db.codes) db a h in
    let db' = (pair_agent now code name db).1 in
    get_current_agent-header j u settings laws (auth_view users nodes db')
      (device_payload j u settings now a.id agent) settings.jwt_secret later
    ∙ rw (==_refl settings.jwt_secret, fresh, parse a.id, find-device a.id db'.agents a row, active)
        refl
