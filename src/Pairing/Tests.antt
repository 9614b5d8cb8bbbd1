-- ===== src/Pairing/Tests.antt =====
-- The theorems on pairing at concrete inputs.
use sentry_backend.Base.{◌≡◌, ◌⊎◌, refl, true, none, some, [], ◌∷◌, ◌++◌, arith}
use sentry_backend.Base.Text.{Text}
use sentry_backend.Base.Action.{ok, err, http}
use sentry_backend.Auth.Doors.{get_current_agent, bearer_title}
use sentry_backend.Auth.Token.{create_agent_token}
use sentry_backend.Auth.Plain.{plain, plain-laws, numbers, limits}
use sentry_backend.Pairing.{
  Agent, PairDb, consume_pairing_code, known_agent, place_agent, pair_with, pair_agent,
}
use sentry_backend.Pairing.Codes.{Unique}
use sentry_backend.Pairing.Once.{starts, waits, pair_agent_once, Reached-finds_one}
use sentry_backend.Pairing.Admitted.{auth_view, device_of, pair_agent-get_current_agent}

abbrev code_of_day : Text
code_of_day = 48 ∷ 48 ∷ 49 ∷ []

abbrev office : PairDb
office = record {
  stores = 3 ∷ [];
  codes =
      record {
        id = 1;
        code = code_of_day;
        scope = record { organization_id = 7; store_id = 3 };
        created_by_user_id = some 9;
        expires_at = 600;
        consumed_at = none;
        device_id = none;
      }
      ∷ [];
  agents = [];
  next_id = 2;
}

abbrev desk : Agent
desk = record {
  id = 2;
  organization_id = 7;
  store_id = 3;
  name = none;
  is_active = true;
  created_at = 50;
  last_seen_at = some 50;
  paired_by_user_id = some 9;
}

paired : (pair_agent 50 code_of_day none office).0 ≡ ok desk
unfolding pair_agent pair_with consume_pairing_code known_agent place_agent
paired = refl

office-Unique : Unique 50 office.codes
office-Unique code = ground arith

pair_agent_once_example :
    let db' = (pair_agent 50 code_of_day none office).1 in
    pair_agent 60 code_of_day none db' ≡ (err (http 400), db')
pair_agent_once_example =
    pair_agent_once 50 60 code_of_day none none office desk (omega arith) office-Unique paired

pair_agent-get_current_agent_example :
    get_current_agent plain numbers limits 80
      (auth_view [] [] (pair_agent 50 code_of_day none office).1)
      (some (bearer_title ++ create_agent_token plain numbers limits 50 2))
    ≡ ok (device_of desk)
pair_agent-get_current_agent_example =
    pair_agent-get_current_agent plain numbers limits plain-laws (λ n. refl) 50 80 code_of_day none
      office desk [] [] refl paired

abbrev bare : PairDb
bare = record office { codes = [] }

Reached-finds_one_example :
    ((a : Agent) × ((pair_agent 90 code_of_day none bare).0 ≡ ok a))
    ⊎ (((pair_agent 90 code_of_day none bare).0 ≡ err (http 400))
        ⊎ ((pair_agent 90 code_of_day none bare).0 ≡ err (http 404)))
Reached-finds_one_example =
    Reached-finds_one (waits {now = 50} {db = bare} (starts refl) 90 (omega arith)) code_of_day none
