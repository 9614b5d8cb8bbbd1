-- ===== src/Auth/Tests.antt =====
-- The theorems on authentication at concrete inputs, with a token that writes its key and claims out.
use sentry_backend.Base.{◌+◌, ◌≡◌, ◌↔◌, refl, true, false, none, some, [], ◌∷◌, ◌++◌, leb}
use sentry_backend.Base.Action.{ok, err, http}
use sentry_backend.Auth.{Text, agent, Payload, Account, AuthDb}
use sentry_backend.Auth.Plain.{write, plain, plain-laws, numbers, limits}
use sentry_backend.Auth.Token.{
  create_user_token, create_stream_token, decode_user_token, device_payload,
}
use sentry_backend.Auth.Doors.{
  bearer_token, starts_lower, split_second, admit_device, get_current_agent, get_user_by_id,
  get_current_user, extract_token, bearer_title,
}
use sentry_backend.Auth.Doors.Bearer.{extract_token-encode}
use sentry_backend.Auth.Doors.Confined.{agent_door, door_typ, opens, opens-typ}
use sentry_backend.Auth.Session.{
  TokenPair, authenticate, get_user_by_email, login, logout, issue_tokens, refresh_tokens,
}
use sentry_backend.Auth.Session.Login.{pair_of, login-admits}
use sentry_backend.Auth.Session.Revoked.{here, logout-revokes}
use sentry_backend.Auth.Media.{text_beq, stream_token_allows, stream_token_allows-create}

abbrev ann : Account
ann = record {
  id = 7;
  email = 97 ∷ [];
  hashed_password = 112 ∷ [];
  is_active = true;
  is_super_admin = false;
  token_version = 2;
}

abbrev shop : AuthDb
shop = record { users = ann ∷ []; agents = record { id = 7; is_active = true } ∷ []; ai_nodes = [] }

abbrev anns : Payload
anns = device_payload plain numbers limits 0 7 agent

extract_token-encode_example :
    (extract_token none (some (bearer_title ++ plain.encode anns 11)) ≡ ok (plain.encode anns 11))
    × (extract_token (some []) (some (bearer_title ++ plain.encode anns 11))
        ≡ ok (plain.encode anns 11))
    × (extract_token (some (plain.encode anns 11)) none ≡ ok (plain.encode anns 11))
extract_token-encode_example = extract_token-encode plain plain-laws anns 11 none

opened : opens plain numbers limits agent_door 5 shop (plain.encode anns 11) ≡ true
unfolding get_current_agent bearer_token starts_lower split_second decode_user_token admit_device
opened = refl

opens-typ_example : some agent ≡ some (door_typ agent_door)
opens-typ_example = opens-typ plain numbers limits plain-laws agent_door 5 shop anns 11 opened

abbrev anns_pair : TokenPair
anns_pair = pair_of plain numbers limits 100 ann

logged_in :
    login plain numbers limits text_beq text_beq 100 (97 ∷ []) (112 ∷ []) shop ≡ ok anns_pair
unfolding login authenticate get_user_by_email issue_tokens create_user_token
logged_in = refl

login-admits_example :
    (a : Account) × (text_beq a.email (97 ∷ []) ≡ true)
    × (text_beq (112 ∷ []) a.hashed_password ≡ true)
    × (leb 200 (100 + 900) ≡ true
        → (get_current_user plain numbers limits 200 shop (some anns_pair.access_token) none ≡ ok a)
          × (get_current_user plain numbers limits 200 shop none
                (some (bearer_title ++ anns_pair.access_token))
              ≡ ok a))
    × (leb 200 (100 + 604_800) ≡ true
        → refresh_tokens plain numbers limits 200 shop (some anns_pair.refresh_token)
          ≡ issue_tokens plain numbers limits 200 a.id a.token_version)
login-admits_example =
    login-admits plain numbers limits plain-laws (λ n. refl) text_beq text_beq 100 200 (97 ∷ [])
      (112 ∷ []) shop anns_pair none (tt, tt) logged_in

row_of_ann : get_user_by_id 7 shop ≡ some ann
unfolding get_user_by_id
row_of_ann = refl

issued : issue_tokens plain numbers limits 100 7 2 ≡ ok anns_pair
unfolding issue_tokens create_user_token
issued = refl

decoded : decode_user_token plain numbers limits 150 (50 ∷ 11 ∷ write anns) ≡ ok anns
unfolding decode_user_token
decoded = refl

abbrev left : AuthDb
left = (logout plain numbers limits 150 (some (50 ∷ 11 ∷ write anns)) none shop).1

logout-revokes_example :
    (get_current_user plain numbers limits 200 left (some anns_pair.access_token) none
      ≡ err (http 401))
    × (get_current_user plain numbers limits 200 left none
          (some (bearer_title ++ anns_pair.access_token))
        ≡ err (http 401))
    × (refresh_tokens plain numbers limits 200 left (some anns_pair.refresh_token) ≡ err (http 401))
logout-revokes_example =
    logout-revokes plain numbers limits plain-laws (λ n. refl) 100 150 200 50 (11 ∷ write anns) ann
      anns anns_pair none none shop shop left row_of_ann issued here decoded refl here

abbrev front : Text
front = 99 ∷ []

stream_token_allows-create_example :
    (stream_token_allows plain numbers limits 30
        (create_stream_token plain numbers limits 0 front)
        front
      ≡ true)
    ↔ ((front ≡ front) × (leb 30 (0 + 60) ≡ true))
stream_token_allows-create_example =
    stream_token_allows-create plain numbers limits plain-laws 0 30 front front
