-- ===== src/Auth/Session.antt =====
-- services/auth_service.py, the writes of repository/user_repo.py, and login, logout and refresh of
-- api/v1/auth.py. What a call puts in the cookies is its result; the recording of events is left out.
pub mod Login
pub mod Revoked
use sentry_backend.Base.{
  ℕ, suc, ◌+◌, Bool, true, false, ◌&&◌, Option, none, some, List, [], ◌∷◌, ◌++◌, map, ◌==◌,
  if◌then◌else◌,
}
use sentry_backend.Base.Lists.{find_by}
use sentry_backend.Base.Action.{Action, Result, ok, err, http}
use sentry_backend.Auth.{
  Text, TokenType, access, refresh, Payload, Jwt, Uuid, Settings, Account, AuthDb,
}
use sentry_backend.Auth.Token.{create_user_token, decode_user_token}
use sentry_backend.Auth.Doors.{
  bearer, starts_lower, split_second, indexed, or_refused, credentials, current, is_refresh,
  tv_claim, subject_id, get_user_by_id, ◌then_with◌,
}

pub record TokenPair : Type 0 where
  pub access_token : Text
  pub refresh_token : Text

-- `update_user_flags` of repository/user_repo.py; `none` leaves a flag as it is.
abbrev pub set_flag : Option Bool → Bool → Bool
set_flag none old = old
set_flag (some new) old = new

abbrev pub flagged : ℕ → Option Bool → Option Bool → Account → Account
flagged id is_active is_super_admin a =
    if a.id == id
    then record a {
      is_active = set_flag is_active a.is_active;
      is_super_admin = set_flag is_super_admin a.is_super_admin;
    }
    else a

unfoldable pub update_user_flags : ℕ → Option Bool → Option Bool → AuthDb → AuthDb
update_user_flags id is_active is_super_admin db = record db {
  users = map (flagged id is_active is_super_admin) db.users;
}

-- `create_user`, with the id that the database gives and the password's hash.
unfoldable pub create_user : ℕ → Text → Text → Bool → Bool → AuthDb → AuthDb
create_user id email hashed is_super_admin is_active db =
    let a : Account = record {
      id = id;
      email = email;
      hashed_password = hashed;
      is_active = is_active;
      is_super_admin = is_super_admin;
      token_version = 0;
    } in
    record db { users = db.users ++ (a ∷ []) }

-- `verify_password(password, hashed)` is passlib's bcrypt, and `same_text` the database's equality of e-mails.
module _ (verify_password : Text → Text → Bool) where
  abbrev pub checked : Text → Option Account → Option Account
  checked password none = none
  checked password (some a) =
      if a.is_active && verify_password password a.hashed_password then some a else none

unfoldable pub get_user_by_email : (Text → Text → Bool) → Text → AuthDb → Option Account
get_user_by_email same_text email db = find_by (λ a. same_text a.email email) db.users

module _ (verify_password : Text → Text → Bool) (same_text : Text → Text → Bool) where
  -- The dummy hash that the code verifies for a missing user only takes time.
  unfoldable pub authenticate : AuthDb → Text → Text → Option Account
  unfolding get_user_by_email
  authenticate db email password =
      checked verify_password password (get_user_by_email same_text email db)

abbrev pub bumped : ℕ → Account → Account
bumped id a = if a.id == id then record a { token_version = suc a.token_version } else a

-- `user.token_version += 1`, written back.
unfoldable pub bump_version : ℕ → List Account → List Account
bump_version id users = map (bumped id) users

wrapped : Result Text → Result (Option Text)
wrapped (err e) = err e
wrapped (ok t) = ok (some t)

-- `_bearer_token`: a header that does not start with "bearer " is no token.
header_token : Option Text → Result (Option Text)
unfolding wrapped starts_lower split_second
header_token none = ok none
header_token (some header) =
    if starts_lower bearer header then wrapped (indexed (split_second header)) else ok none

unfoldable pub token_of : Option Text → Option Text → Result (Option Text)
unfolding header_token
token_of (some (c ∷ token)) header = ok (some (c ∷ token))
token_of (some []) header = header_token header
token_of none header = header_token header

module _ (j : Jwt) (u : Uuid) (settings : Settings) where
  unfoldable pub issue_tokens : ℕ → ℕ → ℕ → Result TokenPair
  unfolding create_user_token
  issue_tokens now user_id token_version =
      create_user_token j u settings now user_id access token_version then_with λ a.
      create_user_token j u settings now user_id refresh token_version then_with λ r.
      ok (record { access_token = a; refresh_token = r })

  abbrev pub issued_to : ℕ → Option Account → Result TokenPair
  issued_to now none = err (http 401)
  issued_to now (some a) = issue_tokens now a.id a.token_version

  unfoldable pub login :
      (Text → Text → Bool) → (Text → Text → Bool) → ℕ → Text → Text → AuthDb → Result TokenPair
  unfolding authenticate issue_tokens
  login verify_password same_text now email password db =
      issued_to now (authenticate verify_password same_text db email password)

  unfoldable pub revoke : Option ℕ → AuthDb → AuthDb
  unfolding bump_version
  revoke none db = db
  revoke (some id) db = record db { users = bump_version id db.users }

  -- An invalid token still clears the cookies, and a token of any type is good enough.
  unfoldable pub subject_of : Result Payload → Option ℕ
  subject_of (err e) = none
  subject_of (ok p) = subject_id j u settings p

  unfoldable pub logged_out : ℕ → AuthDb → Result (Option Text) → Result (Unit {0}) × AuthDb
  unfolding revoke subject_of decode_user_token
  logged_out now db (err e) = (err e, db)
  logged_out now db (ok none) = (ok tt, db)
  logged_out now db (ok (some token)) =
      (ok tt, revoke (subject_of (decode_user_token j u settings now token)) db)

  unfoldable pub logout : ℕ → Option Text → Option Text → Action AuthDb (Unit {0})
  unfolding logged_out token_of
  logout now cookie header db = logged_out now db (token_of cookie header)

  -- `refresh` from the payload on.
  unfoldable pub renewed : ℕ → AuthDb → Payload → Result TokenPair
  unfolding issue_tokens get_user_by_id
  renewed now db p =
      if is_refresh p.typ
      then (credentials (subject_id j u settings p) then_with λ id.
          current j u settings p (get_user_by_id id db) then_with λ a.
          issue_tokens now a.id a.token_version)
      else err (http 401)

  unfoldable pub refresh_tokens : ℕ → AuthDb → Option Text → Result TokenPair
  unfolding renewed decode_user_token
  refresh_tokens now db none = err (http 401)
  refresh_tokens now db (some []) = err (http 401)
  refresh_tokens now db (some (c ∷ token)) =
      or_refused (decode_user_token j u settings now (c ∷ token)) then_with λ p. renewed now db p
