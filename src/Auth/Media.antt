-- ===== src/Auth/Media.antt =====
-- The MediaMTX authorizer of api/v1/internal.py, with the tokens that admit to one camera's stream.
use sentry_backend.Base.{
  ℕ, ◌+◌, ◌≡◌, ◌↔◌, refl, Bool-cases, inl, inr, ==_refl, Bool, true, false, ◌&&◌, Option, none,
  some, [], ◌∷◌, ◌++◌, ◌==◌, if◌then◌else◌, arith, leb,
}
use sentry_backend.Base.Action.{Result, ok, err, http}
use sentry_backend.Auth.{Text, Payload, Jwt, JwtLaws, Uuid, Settings}
use sentry_backend.Auth.Token.{
  stream_payload, decode-encoded, decode_user_token, create_stream_token,
}
use sentry_backend.Auth.Doors.{bearer_title, is_stream}

abbrev pub text_beq : Text → Text → Bool
text_beq [] [] = true
text_beq [] (d ∷ b) = false
text_beq (c ∷ a) [] = false
text_beq (c ∷ a) (d ∷ b) = c == d && text_beq a b

pub text_beq_iff : (a b : Text) → (text_beq a b ≡ true) ↔ (a ≡ b)
text_beq_iff [] [] = ground arith
text_beq_iff [] (d ∷ b) = ground arith
text_beq_iff (c ∷ a) [] = ground arith
text_beq_iff (c ∷ a) (d ∷ b) = ground (arith, text_beq_iff a b)

-- What the lower-case action is compared with; `none` is any other text.
pub data MediaAction : Type 0 where
  read playback publish api metrics pprof : MediaAction

abbrev same_path : Option Text → Text → Bool
same_path none path = false
same_path (some p) path = text_beq p path

allows : Result Payload → Text → Bool
allows (err e) path = false
allows (ok p) path = is_stream p.typ && same_path p.path path

-- `token` is the first value of the query's "jwt" or "token", or empty.
module _ (j : Jwt) (u : Uuid) (settings : Settings) where
  unfoldable pub stream_token_allows : ℕ → Text → Text → Bool
  unfolding allows decode_user_token
  stream_token_allows now [] path = false
  stream_token_allows now (c ∷ token) path =
      allows (decode_user_token j u settings now (c ∷ token)) path

  -- An expected name or password that is unset or empty matches nothing. `hmac.compare_digest` compares
  -- texts of ASCII characters; it raises on others.
  unfoldable pub creds_match : Text → Text → Option Text → Option Text → Bool
  creds_match user password (some (c ∷ n)) (some (d ∷ w)) =
      text_beq user (c ∷ n) && text_beq password (d ∷ w)
  creds_match user password none w = false
  creds_match user password (some []) w = false
  creds_match user password (some (c ∷ n)) none = false
  creds_match user password (some (c ∷ n)) (some []) = false

  abbrev pub media_allowed : ℕ → Option MediaAction → Text → Text → Text → Text → Bool
  media_allowed now (some read) user password path token = stream_token_allows now token path
  media_allowed now (some playback) user password path token = stream_token_allows now token path
  media_allowed now (some publish) user password path token =
      creds_match user password settings.publish_user settings.publish_pass
  media_allowed now (some api) user password path token =
      creds_match user password settings.api_user settings.api_pass
  media_allowed now (some metrics) user password path token =
      creds_match user password settings.api_user settings.api_pass
  media_allowed now (some pprof) user password path token =
      creds_match user password settings.api_user settings.api_pass
  media_allowed now none user password path token = false

  abbrev same_header : Option Text → Text → Bool
  same_header none secret = false
  same_header (some header) secret = text_beq header (bearer_title ++ secret)

  -- No secret, or an empty one, asks for none.
  abbrev pub secret_ok : Option Text → Option Text → Bool
  secret_ok none header = true
  secret_ok (some []) header = true
  secret_ok (some (c ∷ secret)) header = same_header header (c ∷ secret)

  unfoldable pub mediamtx_auth :
      ℕ → Option MediaAction → Text → Text → Text → Text → Option Text → Result (Unit {0})
  unfolding stream_token_allows creds_match
  mediamtx_auth now action user password path token header =
      if secret_ok settings.mediamtx_auth_secret header
        && media_allowed now action user password path token
      then ok tt
      else err (http 401)

  allows_encoded :
      JwtLaws j
      → (now : ℕ) (p : Payload) (path : Text)
      → stream_token_allows now (j.encode p settings.jwt_secret) path
        ≡ (leb now p.exp && (is_stream p.typ && same_path p.path path))
  unfolding stream_token_allows allows decode_user_token
  allows_encoded laws now p path =
      let (c, cs, e, graphic) = laws.starts p settings.jwt_secret in
      let d = decode-encoded j laws p settings.jwt_secret settings.jwt_secret now (c ∷ cs) e in
      elim (Bool-cases (leb now p.exp)) [
        | inl fresh ↦ rw (e, d, ==_refl settings.jwt_secret, fresh) refl
        | inr old ↦ rw (e, d, ==_refl settings.jwt_secret, old) refl
      ]

  -- A token created for a camera's path reads a stream exactly when this is the path's, and until the
  -- token expires.
  pub stream_token_allows-create :
      JwtLaws j
      → (created now : ℕ) (path other_path : Text)
      → (stream_token_allows now (create_stream_token j u settings created path) other_path ≡ true)
        ↔ ((path ≡ other_path) × (leb now (created + settings.stream_ttl) ≡ true))
  unfolding create_stream_token
  stream_token_allows-create laws created now path other_path =
      rw (allows_encoded laws now (stream_payload j u settings created path) other_path)
        (ground (arith, text_beq_iff path other_path))
