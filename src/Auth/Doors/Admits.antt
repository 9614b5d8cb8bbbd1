-- ===== src/Auth/Doors/Admits.antt =====
-- Lemmas on the answer of each dependency of Doors to a token that the code has encoded.
use sentry_backend.Base.{
  ℕ, ◌≡◌, refl, Option, none, some, [], ◌++◌, leb, ◌&&◌, ◌==◌, if◌then◌else◌, Bool-cases, inl, inr,
}
use sentry_backend.Base.Action.{Result, ok, err, http}
use sentry_backend.Auth.{Text, Payload, Jwt, JwtLaws, Uuid, Settings, AuthDb}
use sentry_backend.Auth.Token.{decode_user_token, decode_service_token}
use sentry_backend.Auth.Doors.{
  is_agent, is_ai_node, bearer_title, bearer_token, extract_token, admit_user, admit_device,
  get_current_user, get_current_agent, get_current_ai_node, named_service, require_service_token,
  ◌then_with◌, or_refused,
}
use sentry_backend.Auth.Doors.Bearer.{extract_token-encode}

-- The payload, while the key is right and the token has not expired.
abbrev pub live : {A : Type 0} → ℕ → ℕ → ℕ → Payload → Result A → Result A
live secret key now p answer = if secret == key && leb now p.exp then answer else err (http 401)

module _ (j : Jwt) (u : Uuid) (settings : Settings) (laws : JwtLaws j) where
  pub decode_user_token-encode :
      {A : Type 0} (p : Payload) (secret now : ℕ) (f : Payload → Result A)
      → (or_refused (decode_user_token j u settings now (j.encode p secret)) then_with f)
        ≡ live secret settings.jwt_secret now p (f p)
  unfolding decode_user_token
  decode_user_token-encode p secret now f =
      elim (Bool-cases (secret == settings.jwt_secret && leb now p.exp)) [
        | inl good ↦ rw (laws.decode-encode p secret settings.jwt_secret now, good) refl
        | inr bad ↦ rw (laws.decode-encode p secret settings.jwt_secret now, bad) refl
      ]

  pub get_current_user-cookie :
      (db : AuthDb) (p : Payload) (secret now : ℕ) (header : Option Text)
      → get_current_user j u settings now db (some (j.encode p secret)) header
        ≡ live secret settings.jwt_secret now p (admit_user j u settings db p)
  unfolding get_current_user
  get_current_user-cookie db p secret now header =
      rw (extract_token-encode j laws p secret header).2
        (decode_user_token-encode p secret now (admit_user j u settings db))

  pub get_current_user-header :
      (db : AuthDb) (p : Payload) (secret now : ℕ)
      → get_current_user j u settings now db none (some (bearer_title ++ j.encode p secret))
        ≡ live secret settings.jwt_secret now p (admit_user j u settings db p)
  unfolding get_current_user
  get_current_user-header db p secret now =
      rw (extract_token-encode j laws p secret none).0
        (decode_user_token-encode p secret now (admit_user j u settings db))

  pub get_current_user-blank :
      (db : AuthDb) (p : Payload) (secret now : ℕ)
      → get_current_user j u settings now db (some []) (some (bearer_title ++ j.encode p secret))
        ≡ live secret settings.jwt_secret now p (admit_user j u settings db p)
  unfolding get_current_user
  get_current_user-blank db p secret now =
      rw (extract_token-encode j laws p secret none).1
        (decode_user_token-encode p secret now (admit_user j u settings db))

  bearer_token-encode :
      (p : Payload) (secret : ℕ)
      → bearer_token (some (bearer_title ++ j.encode p secret)) ≡ ok (j.encode p secret)
  bearer_token-encode p secret =
      unfold extract_token in (extract_token-encode j laws p secret none).0

  pub get_current_agent-header :
      (db : AuthDb) (p : Payload) (secret now : ℕ)
      → get_current_agent j u settings now db (some (bearer_title ++ j.encode p secret))
        ≡ live secret settings.jwt_secret now p (admit_device j u settings is_agent db.agents p)
  unfolding get_current_agent
  get_current_agent-header db p secret now =
      rw (bearer_token-encode p secret)
        (decode_user_token-encode p secret now (admit_device j u settings is_agent db.agents))

  pub get_current_ai_node-header :
      (db : AuthDb) (p : Payload) (secret now : ℕ)
      → get_current_ai_node j u settings now db (some (bearer_title ++ j.encode p secret))
        ≡ live secret settings.jwt_secret now p (admit_device j u settings is_ai_node db.ai_nodes p)
  unfolding get_current_ai_node
  get_current_ai_node-header db p secret now =
      rw (bearer_token-encode p secret)
        (decode_user_token-encode p secret now (admit_device j u settings is_ai_node db.ai_nodes))

  pub require_service_token-header :
      (p : Payload) (secret now : ℕ)
      → require_service_token j u settings now (some (bearer_title ++ j.encode p secret))
        ≡ live secret settings.service_token_secret now p (named_service j u settings p)
  unfolding require_service_token decode_service_token
  require_service_token-header p secret now =
      elim (Bool-cases (secret == settings.service_token_secret && leb now p.exp)) [
        | inl good ↦
            rw
              (
                bearer_token-encode p secret,
                laws.decode-encode p secret settings.service_token_secret now,
                good,
              )
              refl
        | inr bad ↦
            rw
              (
                bearer_token-encode p secret,
                laws.decode-encode p secret settings.service_token_secret now,
                bad,
              )
              refl
      ]
