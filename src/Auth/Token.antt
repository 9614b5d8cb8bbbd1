-- ===== src/Auth/Token.antt =====
-- security.py: the tokens that it creates and reads.
use sentry_backend.Base.{
  ℕ, ◌+◌, ◌*◌, ◌≡◌, ◌∙◌, ap, sym, ◌==◌, ◌&&◌, leb, if◌then◌else◌, Option, none, some, [], ◌∷◌, ◌++◌,
}
use sentry_backend.Base.Action.{Result, ok, err, value_error}
use sentry_backend.Auth.{
  Text, TokenType, access, refresh, service, stream, agent, ai_node, other, Payload, Jwt, JwtLaws,
  Uuid, Settings,
}

abbrev pub device_ttl : ℕ
device_ttl = 365 * 86_400

abbrev or_invalid : Option Payload → Result Payload
or_invalid none = err value_error
or_invalid (some p) = ok p

-- The law on a token that is known as a text.
pub decode-encoded :
    (j : Jwt) (laws : JwtLaws j) (p : Payload) (secret key now : ℕ) (token : Text)
    → j.encode p secret ≡ token
    → j.decode token key now ≡ (if secret == key && leb now p.exp then some p else none)
decode-encoded j laws p secret key now token e =
    ap (λ t. j.decode t key now) (sym e) ∙ laws.decode-encode p secret key now

module _ (j : Jwt) (u : Uuid) (settings : Settings) where
  abbrev pub user_payload : ℕ → ℕ → TokenType → ℕ → ℕ → Payload
  user_payload now user_id typ ttl token_version = record {
    sub = some (u.str user_id);
    iat = now;
    exp = now + ttl;
    typ = some typ;
    tv = some token_version;
    path = none;
    service_name = none;
  }

  -- No caller passes extra claims.
  unfoldable pub create_user_token : ℕ → ℕ → TokenType → ℕ → Result Text
  create_user_token now user_id access token_version = ok (
      j.encode (user_payload now user_id access settings.access_ttl token_version)
        settings.jwt_secret)
  create_user_token now user_id refresh token_version = ok (
      j.encode (user_payload now user_id refresh settings.refresh_ttl token_version)
        settings.jwt_secret)
  create_user_token now user_id service token_version = err value_error
  create_user_token now user_id stream token_version = err value_error
  create_user_token now user_id agent token_version = err value_error
  create_user_token now user_id ai_node token_version = err value_error
  create_user_token now user_id (other t) token_version = err value_error

  -- "service:" before the name.
  abbrev service_prefix : Text
  service_prefix = 115 ∷ 101 ∷ 114 ∷ 118 ∷ 105 ∷ 99 ∷ 101 ∷ 58 ∷ []

  abbrev pub service_payload : ℕ → Text → Payload
  service_payload now name = record {
    sub = some (service_prefix ++ name);
    iat = now;
    exp = now + settings.service_ttl;
    typ = some service;
    tv = none;
    path = none;
    service_name = some name;
  }

  unfoldable pub create_service_token : ℕ → Text → Text
  create_service_token now name = j.encode (service_payload now name) settings.service_token_secret

  abbrev pub stream_payload : ℕ → Text → Payload
  stream_payload now mediamtx_path = record {
    sub = some mediamtx_path;
    iat = now;
    exp = now + settings.stream_ttl;
    typ = some stream;
    tv = none;
    path = some mediamtx_path;
    service_name = none;
  }

  unfoldable pub create_stream_token : ℕ → Text → Text
  create_stream_token now mediamtx_path =
      j.encode (stream_payload now mediamtx_path) settings.jwt_secret

  abbrev pub device_payload : ℕ → ℕ → TokenType → Payload
  device_payload now id typ = record {
    sub = some (u.str id);
    iat = now;
    exp = now + device_ttl;
    typ = some typ;
    tv = none;
    path = none;
    service_name = none;
  }

  unfoldable pub create_agent_token : ℕ → ℕ → Text
  create_agent_token now agent_id = j.encode (device_payload now agent_id agent) settings.jwt_secret

  unfoldable pub create_ai_node_token : ℕ → ℕ → Text
  create_ai_node_token now ai_node_id =
      j.encode (device_payload now ai_node_id ai_node) settings.jwt_secret

  unfoldable pub decode_user_token : ℕ → Text → Result Payload
  decode_user_token now token = or_invalid (j.decode token settings.jwt_secret now)

  unfoldable pub decode_service_token : ℕ → Text → Result Payload
  decode_service_token now token = or_invalid (j.decode token settings.service_token_secret now)
