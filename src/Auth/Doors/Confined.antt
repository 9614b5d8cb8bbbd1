-- ===== src/Auth/Doors/Confined.antt =====
-- Theorems on the types of tokens that the dependencies of Doors let in.
use sentry_backend.Base.{
  ℕ, ◌≡◌, Bool, true, false, Option, none, some, [], ◌++◌, if◌then◌else◌, ap, sym, ◌∙◌, arith,
}
use sentry_backend.Base.Action.{Result, ok, err, http}
use sentry_backend.Auth.{
  Text, TokenType, access, service, agent, ai_node, Payload, Jwt, JwtLaws, Uuid, Settings, AuthDb,
}
use sentry_backend.Auth.Doors.{
  is_access, is_agent, is_ai_node, is_service, bearer_title, admit_user, admit_device,
  get_current_user, get_current_agent, get_current_ai_node, require_service_token,
}
use sentry_backend.Auth.Doors.Admits.{
  live, get_current_user-header, get_current_user-blank, get_current_user-cookie,
  get_current_agent-header, get_current_ai_node-header, require_service_token-header,
}

abbrev pub is_ok : {A : Type 0} → Result A → Bool
is_ok (ok a) = true
is_ok (err e) = false

-- A dependency, and how a token is sent to it: in a Bearer header, which a user's browser sends with an
-- empty cookie or with none, or in the cookie, with any header.
pub data Door : Type 0 where
  user_door blank_door agent_door ai_node_door service_door : Door
  cookie_door : Option Text → Door

-- The type of the tokens that open it.
abbrev pub door_typ : Door → TokenType
door_typ user_door = access
door_typ blank_door = access
door_typ (cookie_door header) = access
door_typ agent_door = agent
door_typ ai_node_door = ai_node
door_typ service_door = service

is_access-typ : (t : Option TokenType) → is_access t ≡ true → t ≡ some access
is_access-typ t h = ground (arith, h)

is_agent-typ : (t : Option TokenType) → is_agent t ≡ true → t ≡ some agent
is_agent-typ t h = ground (arith, h)

is_ai_node-typ : (t : Option TokenType) → is_ai_node t ≡ true → t ≡ some ai_node
is_ai_node-typ t h = ground (arith, h)

is_service-typ : (t : Option TokenType) → is_service t ≡ true → t ≡ some service
is_service-typ t h = ground (arith, h)

live_ok :
    {A : Type 0} (secret key now : ℕ) (p : Payload) (b : Bool) (answer : Result A)
    → is_ok (live secret key now p (if b then answer else err (http 401))) ≡ true
    → b ≡ true
live_ok secret key now p b answer h = ground (arith, h)

module _ (j : Jwt) (u : Uuid) (settings : Settings) where
  abbrev pub opens : Door → ℕ → AuthDb → Text → Bool
  opens user_door now db token =
      is_ok (get_current_user j u settings now db none (some (bearer_title ++ token)))
  opens blank_door now db token =
      is_ok (get_current_user j u settings now db (some []) (some (bearer_title ++ token)))
  opens (cookie_door header) now db token =
      is_ok (get_current_user j u settings now db (some token) header)
  opens agent_door now db token =
      is_ok (get_current_agent j u settings now db (some (bearer_title ++ token)))
  opens ai_node_door now db token =
      is_ok (get_current_ai_node j u settings now db (some (bearer_title ++ token)))
  opens service_door now db token =
      is_ok (require_service_token j u settings now (some (bearer_title ++ token)))

  -- A door for users, agents, AI nodes or services is opened only by a token of its own type, whatever
  -- key has signed it and whatever the rows are; for users this holds of a token in the header and of
  -- one in the cookie, whatever the header.
  pub opens-typ :
      JwtLaws j
      → (door : Door) (now : ℕ) (db : AuthDb) (p : Payload) (secret : ℕ)
      → opens door now db (j.encode p secret) ≡ true
      → p.typ ≡ some (door_typ door)
  unfolding admit_user admit_device
  opens-typ laws user_door now db p secret h = is_access-typ p.typ (
      live_ok secret settings.jwt_secret now p (is_access p.typ) _
        (ap is_ok (sym (get_current_user-header j u settings laws db p secret now)) ∙ h))
  opens-typ laws blank_door now db p secret h = is_access-typ p.typ (
      live_ok secret settings.jwt_secret now p (is_access p.typ) _
        (ap is_ok (sym (get_current_user-blank j u settings laws db p secret now)) ∙ h))
  opens-typ laws (cookie_door header) now db p secret h = is_access-typ p.typ (
      live_ok secret settings.jwt_secret now p (is_access p.typ) _
        (ap is_ok (sym (get_current_user-cookie j u settings laws db p secret now header)) ∙ h))
  opens-typ laws agent_door now db p secret h = is_agent-typ p.typ (
      live_ok secret settings.jwt_secret now p (is_agent p.typ) _
        (ap is_ok (sym (get_current_agent-header j u settings laws db p secret now)) ∙ h))
  opens-typ laws ai_node_door now db p secret h = is_ai_node-typ p.typ (
      live_ok secret settings.jwt_secret now p (is_ai_node p.typ) _
        (ap is_ok (sym (get_current_ai_node-header j u settings laws db p secret now)) ∙ h))
  opens-typ laws service_door now db p secret h = is_service-typ p.typ (
      live_ok secret settings.service_token_secret now p (is_service p.typ) _
        (ap is_ok (sym (require_service_token-header j u settings laws p secret now)) ∙ h))
