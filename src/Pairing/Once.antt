-- ===== src/Pairing/Once.antt =====
-- Theorems on the pairing handler of api/v1/agents.py and the use of a code.
use sentry_backend.Base.{
  ℕ, suc, ◌≤◌, ◌≡◌, ◌⊎◌, refl, ap, sym, ◌∙◌, Option, none, some, List, [], ◌∷◌, ◌==◌, is_some,
  arith, Bool-cases, inl, inr,
}
use sentry_backend.Base.Lists.{find_by}
use sentry_backend.Base.Text.{Text}
use sentry_backend.Base.Action.{Result, ok, err, http, ok-injective}
use sentry_backend.Pairing.{
  is_active_code, PairingCode, Place, Agent, PairDb, AiNode, NodeDb, create_pairing_code,
  consume_pairing_code, mark_consumed, known_agent, place_agent, pair_with, pair_agent,
  pair_node_with, pair_ai_node, agent_code_ttl,
}
use sentry_backend.Pairing.Codes.{
  Unique, actives-later, actives-mark_consumed, one_or_none-ok, create_pairing_code-Unique,
  consumed_gone,
}

codes_stay :
    (now : ℕ) (c : PairingCode Place) (name : Option Text) (o : Option Agent) (db : PairDb)
    → (place_agent now c name o db).1.codes ≡ db.codes
unfolding place_agent
codes_stay now c name none db = refl
codes_stay now c name (some a) db = refl

pairs_by :
    (now : ℕ) (name : Option Text) (r : Result (Option (PairingCode Place))) (db db' : PairDb)
    (a : Agent)
    → pair_with now name r db ≡ (ok a, db')
    → (c : PairingCode Place) × (r ≡ ok (some c))
      × (db'.codes ≡ mark_consumed now c.id a.id db.codes)
unfolding pair_with
pairs_by now name (err e) db db' a h = ground (arith, ap (λ x. x.0) h)
pairs_by now name (ok none) db db' a h = ground (arith, ap (λ x. x.0) h)
pairs_by now name (ok (some c)) db db' a h =
    elim (Bool-cases (is_some (find_by (λ s. s == c.scope.store_id) db.stores))) [
      | inl there ↦
          let placed = place_agent now c name (known_agent c.scope.store_id name db.agents) db in
          let h' = (rw there at h) in
          let same = ok-injective (ap (λ x. x.0) h') in
          (
            c,
            refl,
            sym (ap (λ x. x.1.codes) h')
                ∙ ap (λ cs. mark_consumed now c.id placed.0.id cs)
                    (codes_stay now c name (known_agent c.scope.store_id name db.agents) db)
                ∙ ap (λ d. mark_consumed now c.id d.id db.codes) same,
          )
      | inr gone ↦ ground (arith, ap (λ x. x.0) (rw gone at h))
    ]

paired-Unique :
    (now : ℕ) (name : Option Text) (r : Result (Option (PairingCode Place))) (db : PairDb)
    → Unique now db.codes
    → Unique now (pair_with now name r db).1.codes
unfolding pair_with
paired-Unique now name (err e) db unique code = unique code
paired-Unique now name (ok none) db unique code = unique code
paired-Unique now name (ok (some c)) db unique code =
    elim (Bool-cases (is_some (find_by (λ s. s == c.scope.store_id) db.stores))) [
      | inl there ↦
          let placed = place_agent now c name (known_agent c.scope.store_id name db.agents) db in
          rw (there, codes_stay now c name (known_agent c.scope.store_id name db.agents) db)
            (omega
              (arith, unique code, actives-mark_consumed code now now c.id placed.0.id db.codes))
      | inr gone ↦ rw gone (unique code)
    ]

-- The code of a computer's pairing is used once: after a pairing that succeeds, the same code is
-- refused at every later time, in whatever store.
pub pair_agent_once :
    (now later : ℕ) (code : Text) (name name' : Option Text) (db : PairDb) (a : Agent)
    → now ≤ later
    → Unique now db.codes
    → (pair_agent now code name db).0 ≡ ok a
    → let db' = (pair_agent now code name db).1 in
      pair_agent later code name' db' ≡ (err (http 400), db')
unfolding pair_agent pair_with
pair_agent_once now later code name name' db a le unique h =
    let db' = (pair_agent now code name db).1 in
    let (c, found, marked) =
      pairs_by now name (consume_pairing_code now code db.codes) db db' a (ap (λ x. (x, db')) h) in
    let none_left : consume_pairing_code later code db'.codes ≡ ok none =
      ap (λ cs. consume_pairing_code later code cs) marked
      ∙ consumed_gone code now later a.id c db.codes le unique found in
    rw none_left refl

-- The same for an AI node.
pub pair_ai_node_once :
    (now later : ℕ) (code : Text) (name hostname name' hostname' : Option Text) (db : NodeDb)
    (n : AiNode)
    → now ≤ later
    → Unique now db.node_codes
    → (pair_ai_node now code name hostname db).0 ≡ ok n
    → let db' = (pair_ai_node now code name hostname db).1 in
      (pair_ai_node later code name' hostname' db' ≡ (err (http 400), db'))
      × (db'.nodes ≡ n ∷ db.nodes)
unfolding pair_ai_node pair_node_with
pair_ai_node_once now later code name hostname name' hostname' db n le unique h =
    go (consume_pairing_code now code db.node_codes) refl h
  where
    go :
        (r : Result (Option (PairingCode (Unit {0}))))
        → consume_pairing_code now code db.node_codes ≡ r
        → (pair_node_with now name hostname r db).0 ≡ ok n
        → let db' = (pair_node_with now name hostname r db).1 in
          (pair_ai_node later code name' hostname' db' ≡ (err (http 400), db'))
          × (db'.nodes ≡ n ∷ db.nodes)
    go (err e) found h = ground (arith, h)
    go (ok none) found h = ground (arith, h)
    go (ok (some c)) found h =
        let none_left = consumed_gone code now later db.next_id c db.node_codes le unique found in
        (rw none_left refl, ap (λ m. m ∷ db.nodes) (ok-injective h))

-- The rows of the codes while computers pair and users ask for codes, with the time that passes.
pub data Reached : ℕ → PairDb → Type 0 where
  starts : {now : ℕ} {db : PairDb} → db.codes ≡ [] → Reached now db
  waits : {now : ℕ} {db : PairDb} → Reached now db → (later : ℕ) → now ≤ later → Reached later db
  creates :
      {now : ℕ} {db : PairDb}
      → Reached now db
      → (place : Place) (user : Option ℕ) (draws : List Text)
      → Reached now (record db {
        codes = (create_pairing_code db.next_id now agent_code_ttl place user draws db.codes).1;
        next_id = suc db.next_id;
      })
  pairs :
      {now : ℕ} {db : PairDb}
      → Reached now db
      → (code : Text) (name : Option Text) → Reached now (pair_agent now code name db).1

Reached-Unique : {now : ℕ} {db : PairDb} → Reached now db → Unique now db.codes
unfolding pair_agent
Reached-Unique (starts none_yet) code = rw none_yet (omega arith)
Reached-Unique (waits {now} {db} before later le) code =
    omega (arith, Reached-Unique before code, actives-later code now later db.codes le)
Reached-Unique (creates {now} {db} before place user draws) code =
    create_pairing_code-Unique db.next_id now agent_code_ttl place user draws db.codes
      (Reached-Unique before) code
Reached-Unique (pairs {now} {db} before paired name) code =
    paired-Unique now name (consume_pairing_code now paired db.codes) db (Reached-Unique before)
      code

abbrev Answered : Result Agent → Type 0
Answered r = ((a : Agent) × (r ≡ ok a)) ⊎ ((r ≡ err (http 400)) ⊎ (r ≡ err (http 404)))

answered :
    (now : ℕ) (name : Option Text) (o : Option (PairingCode Place)) (db : PairDb)
    → Answered (pair_with now name (ok o) db).0
unfolding pair_with
answered now name none db = inr (inl refl)
answered now name (some c) db =
    elim (Bool-cases (is_some (find_by (λ s. s == c.scope.store_id) db.stores))) [
      | inl there ↦ rw there (inl (_, refl))
      | inr gone ↦ rw gone (inr (inr refl))
    ]

-- In every database that comes about, where a code is checked and added in one step, and for every
-- code, a pairing finds one row or none, and so it succeeds or is refused with 400 or 404: the query
-- never finds two rows and fails.
pub Reached-finds_one :
    {now : ℕ} {db : PairDb}
    → Reached now db
    → (code : Text) (name : Option Text)
    → ((a : Agent) × ((pair_agent now code name db).0 ≡ ok a))
      ⊎ (((pair_agent now code name db).0 ≡ err (http 400))
          ⊎ ((pair_agent now code name db).0 ≡ err (http 404)))
unfolding pair_agent consume_pairing_code
Reached-finds_one {now} {db} reached code name =
    let (o, e) = one_or_none-ok (is_active_code code now) db.codes (Reached-Unique reached code) in
    rw e (answered now name o db)
