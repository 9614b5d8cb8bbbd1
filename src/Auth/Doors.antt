-- ===== src/Auth/Doors.antt =====
-- The dependencies that let a user, an agent, an AI node or a service in.
pub mod Bearer
pub mod Admits
pub mod Confined
use sentry_backend.Base.{
  ℕ, ◌+◌, Bool, true, false, not, ◌&&◌, ◌||◌, Option, none, some, List, [], ◌∷◌, ◌++◌, leb, ◌==◌,
  if◌then◌else◌,
}
use sentry_backend.Base.Lists.{find_by}
use sentry_backend.Base.Action.{Result, ok, err, http}
use sentry_backend.Auth.{
  Text, TokenType, access, refresh, service, stream, agent, ai_node, other, Payload, Jwt, Uuid,
  Settings, Account, Device, AuthDb,
}
use sentry_backend.Auth.Token.{decode_user_token, decode_service_token}

-- `str.isspace` on Latin-1.
abbrev pub is_space : ℕ → Bool
is_space c = leb 9 c && leb c 13 || leb 28 c && leb c 32 || c == 133 || c == 160

-- `str.lower` on Latin-1.
abbrev pub lower : ℕ → ℕ
lower c = if leb 65 c && leb c 90 || leb 192 c && leb c 222 && not (c == 215) then c + 32 else c

-- "bearer "
abbrev pub bearer : Text
bearer = 98 ∷ 101 ∷ 97 ∷ 114 ∷ 101 ∷ 114 ∷ 32 ∷ []

-- "Bearer "
abbrev pub bearer_title : Text
bearer_title = 66 ∷ 101 ∷ 97 ∷ 114 ∷ 101 ∷ 114 ∷ 32 ∷ []

-- `text.lower().startswith(word)`
unfoldable pub starts_lower : Text → Text → Bool
starts_lower [] text = true
starts_lower (c ∷ word) [] = false
starts_lower (c ∷ word) (d ∷ text) = lower d == c && starts_lower word text

strip_start : Text → Text
strip_start [] = []
strip_start (c ∷ text) = let rest = strip_start text in if is_space c then rest else c ∷ text

second : Text → Option Text
second [] = none
second (c ∷ text) = some (c ∷ text)

after_word : Text → Text
after_word [] = []
after_word (c ∷ text) = let rest = after_word text in if is_space c then c ∷ text else rest

-- `text.split(maxsplit=1)[1]`; `none` is an IndexError.
unfoldable pub split_second : Text → Option Text
unfolding strip_start after_word second
split_second text = second (strip_start (after_word (strip_start text)))

abbrev pub credentials : {A : Type 0} → Option A → Result A
credentials none = err (http 401)
credentials (some a) = ok a

-- An IndexError that nothing catches answers 500.
abbrev pub indexed : Option Text → Result Text
indexed none = err (http 500)
indexed (some t) = ok t

infixl 5 ◌then_with◌
abbrev pub ◌then_with◌ : {A B : Type 0} → Result A → (A → Result B) → Result B
err e then_with f = err e
ok a then_with f = f a

-- `authorization.split(maxsplit=1)[1]` of a header that starts with "bearer "; no other header passes.
unfoldable pub bearer_token : Option Text → Result Text
unfolding starts_lower split_second
bearer_token none = err (http 401)
bearer_token (some header) =
    if starts_lower bearer header then indexed (split_second header) else err (http 401)

-- An empty cookie is no cookie.
unfoldable pub extract_token : Option Text → Option Text → Result Text
unfolding bearer_token
extract_token (some (c ∷ token)) header = ok (c ∷ token)
extract_token (some []) header = bearer_token header
extract_token none header = bearer_token header

abbrev is_access : Option TokenType → Bool
is_access (some access) = true
is_access _ = false

abbrev pub is_refresh : Option TokenType → Bool
is_refresh (some refresh) = true
is_refresh _ = false

abbrev pub is_agent : Option TokenType → Bool
is_agent (some agent) = true
is_agent _ = false

abbrev pub is_ai_node : Option TokenType → Bool
is_ai_node (some ai_node) = true
is_ai_node _ = false

abbrev pub is_service : Option TokenType → Bool
is_service (some service) = true
is_service _ = false

abbrev pub is_stream : Option TokenType → Bool
is_stream (some stream) = true
is_stream _ = false

-- `payload.get("tv", 0)`
abbrev pub tv_claim : Payload → ℕ
tv_claim p = elim p.tv [ none ↦ 0 | some v ↦ v ]

unfoldable pub get_user_by_id : ℕ → AuthDb → Option Account
get_user_by_id id db = find_by (λ a. a.id == id) db.users

-- A refused claim answers 401 whatever it is.
abbrev pub or_refused : {A : Type 0} → Result A → Result A
or_refused (err e) = err (http 401)
or_refused (ok a) = ok a

module _ (j : Jwt) (u : Uuid) (settings : Settings) where
  -- `UUID(payload["sub"])`, where a missing and a malformed claim are refused alike.
  abbrev pub subject_id : Payload → Option ℕ
  subject_id p = elim p.sub [ none ↦ none | some text ↦ u.parse text ]

  -- Those whose `tv` is the user's present version.
  abbrev pub current : Payload → Option Account → Result Account
  current p none = err (http 401)
  current p (some a) = if a.is_active && tv_claim p == a.token_version then ok a else err (http 401)

  -- `get_current_user` from the payload on.
  unfoldable pub admit_user : AuthDb → Payload → Result Account
  unfolding get_user_by_id
  admit_user db p =
      if is_access p.typ
      then (credentials (subject_id p) then_with λ id. current p (get_user_by_id id db))
      else err (http 401)

  unfoldable pub get_current_user : ℕ → AuthDb → Option Text → Option Text → Result Account
  unfolding extract_token decode_user_token admit_user
  get_current_user now db cookie header = extract_token cookie header then_with λ token.
      or_refused (decode_user_token j u settings now token) then_with λ p. admit_user db p

  unfoldable pub require_super_admin : ℕ → AuthDb → Option Text → Option Text → Result Account
  unfolding get_current_user
  require_super_admin now db cookie header = get_current_user now db cookie header then_with λ a.
      if a.is_super_admin then ok a else err (http 403)

  abbrev pub active : Option Device → Result Device
  active none = err (http 401)
  active (some d) = if d.is_active then ok d else err (http 401)

  unfoldable pub admit_device : (Option TokenType → Bool) → List Device → Payload → Result Device
  admit_device is_typ devices p =
      if is_typ p.typ
      then (credentials (subject_id p) then_with λ id. active (find_by (λ d. d.id == id) devices))
      else err (http 401)

  unfoldable pub get_current_agent : ℕ → AuthDb → Option Text → Result Device
  unfolding bearer_token decode_user_token admit_device
  get_current_agent now db header = bearer_token header then_with λ token.
      or_refused (decode_user_token j u settings now token) then_with λ p.
      admit_device is_agent db.agents p

  unfoldable pub get_current_ai_node : ℕ → AuthDb → Option Text → Result Device
  unfolding bearer_token decode_user_token admit_device
  get_current_ai_node now db header = bearer_token header then_with λ token.
      or_refused (decode_user_token j u settings now token) then_with λ p.
      admit_device is_ai_node db.ai_nodes p

  abbrev pub named_service : Payload → Result Text
  named_service p = if is_service p.typ then credentials p.service_name else err (http 401)

  unfoldable pub require_service_token : ℕ → Option Text → Result Text
  unfolding bearer_token decode_service_token
  require_service_token now header = bearer_token header then_with λ token.
      or_refused (decode_service_token j u settings now token) then_with λ p. named_service p
