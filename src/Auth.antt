-- ===== src/Auth.antt =====
-- security.py, deps/auth.py, deps/agent_auth.py, deps/ai_node_auth.py, deps/service.py,
-- services/auth_service.py, api/v1/auth.py and the MediaMTX authorizer of api/v1/internal.py: who is let
-- in with which token. A text is a list of the numbers of its Latin-1 characters, an id a number, a time
-- a number of seconds, as the claims of a token count it. The library python-jose is an interface with
-- two laws of RFC 7515 and RFC 7519: a token decodes under the key that signed it until it expires, and
-- under no other, and it is a text of visible characters. uuid.UUID is an interface too; where a theorem
-- needs it, a hypothesis says that the text of an id parses back to it.
pub mod Token
pub mod Doors
pub mod Session
pub mod Media
pub mod Plain
mod Tests
use sentry_backend.Base.{
  ℕ, ◌≡◌, Bool, true, Option, none, some, List, [], ◌∷◌, ◌==◌, ◌&&◌, leb, if◌then◌else◌,
}

abbrev pub Text : Type 0
Text = List ℕ

-- The `typ` claim.
pub data TokenType : Type 0 where
  access refresh service stream agent ai_node : TokenType
  other : Text → TokenType

-- The claims of a token; `none` where it has none of the name.
pub record Payload : Type 0 where
  pub sub : Option Text
  pub iat : ℕ
  pub exp : ℕ
  pub typ : Option TokenType
  pub tv : Option ℕ
  pub path : Option Text
  pub service_name : Option Text

-- `jwt.encode(payload, secret)`, and `jwt.decode(token, secret)` at a time.
pub record Jwt : Type 0 where
  pub encode : Payload → ℕ → Text
  pub decode : Text → ℕ → ℕ → Option Payload

-- `str(id)` and `UUID(text)`.
pub record Uuid : Type 0 where
  pub str : ℕ → Text
  pub parse : Text → Option ℕ

-- What the code relies on.
pub record JwtLaws (j : Jwt) : Type 0 where
  pub decode-encode :
      (p : Payload) (secret key now : ℕ)
      → j.decode (j.encode p secret) key now
        ≡ (if secret == key && leb now p.exp then some p else none)
  -- A token is not empty and starts with a character that is no space.
  pub starts :
      (p : Payload) (secret : ℕ)
      → (c : ℕ) × (cs : Text) × (j.encode p secret ≡ c ∷ cs) × ((leb 43 c && leb c 126) ≡ true)

pub record Settings : Type 0 where
  pub jwt_secret : ℕ
  pub service_token_secret : ℕ
  pub access_ttl : ℕ  -- jwt_access_ttl_minutes, in seconds
  pub refresh_ttl : ℕ  -- jwt_refresh_ttl_days, in seconds
  pub service_ttl : ℕ
  pub stream_ttl : ℕ
  pub mediamtx_auth_secret : Option Text
  pub publish_user : Option Text
  pub publish_pass : Option Text
  pub api_user : Option Text
  pub api_pass : Option Text

-- A row of the users table.
pub record Account : Type 0 where
  pub id : ℕ
  pub email : Text
  pub hashed_password : Text
  pub is_active : Bool
  pub is_super_admin : Bool
  pub token_version : ℕ

-- A paired agent or AI node.
pub record Device : Type 0 where
  pub id : ℕ
  pub is_active : Bool

pub record AuthDb : Type 0 where
  pub users : List Account
  pub agents : List Device
  pub ai_nodes : List Device
