-- ===== src/Auth/Session/Revoked.antt =====
-- Theorems on logout of api/v1/auth.py and the token versions of users.
use sentry_backend.Base.{
  ℕ, suc, ◌≡◌, ◌≤◌, refl, Bool, false, Option, none, some, List, [], ◌∷◌, ◌++◌, map, ◌&&◌, ◌==◌,
  sym, ◌∙◌, arith,
}
use sentry_backend.Base.Lists.{find_by, find_by-All, All}
use sentry_backend.Base.Action.{Result, ok, err, http, ok-injective}
use sentry_backend.Auth.{
  Text, access, refresh, Payload, Jwt, JwtLaws, Uuid, Settings, Account, AuthDb,
}
use sentry_backend.Auth.Token.{user_payload, decode_user_token, create_user_token}
use sentry_backend.Auth.Doors.{
  get_user_by_id, get_current_user, admit_user, subject_id, bearer_title,
}
use sentry_backend.Auth.Doors.Admits.{live, get_current_user-cookie, get_current_user-header}
use sentry_backend.Auth.Session.Login.{refresh_tokens-encode}
use sentry_backend.Auth.Session.{
  bumped, bump_version, flagged, update_user_flags, create_user, revoke, logged_out, logout,
  token_of, subject_of, renewed, refresh_tokens, issue_tokens, TokenPair,
}

All-any : {A : Type 0} (xs : List A) → All (λ x. Unit {0}) xs
All-any [] = tt
All-any (x ∷ xs) = (tt, All-any xs)

-- The row with the id, after a change of the rows that keeps their ids.
find_by-map :
    {A : Type 0} (p : A → Bool) (f : A → A) (xs : List A) (x : A)
    → ((y : A) → p (f y) ≡ p y)
    → find_by p xs ≡ some x
    → find_by p (map f xs) ≡ some (f x)
find_by-map p f [] x same h = ground (arith, h)
find_by-map p f (y ∷ ys) x same h = ground (arith, h, same y, find_by-map p f ys x same)

find_by-snoc :
    {A : Type 0} (p : A → Bool) (xs : List A) (x y : A)
    → find_by p xs ≡ some x
    → find_by p (xs ++ (y ∷ [])) ≡ some x
find_by-snoc p [] x y h = ground (arith, h)
find_by-snoc p (z ∷ zs) x y h = ground (arith, h, find_by-snoc p zs x y)

-- The user's version is the one given at least.
abbrev pub AtLeast : ℕ → ℕ → AuthDb → Type 0
AtLeast id v db = (a : Account) × (get_user_by_id id db ≡ some a) × (v ≤ a.token_version)

bumped-AtLeast :
    (k id v : ℕ) (db : AuthDb)
    → AtLeast id v db
    → AtLeast id v (record db { users = bump_version k db.users })
unfolding get_user_by_id bump_version
bumped-AtLeast k id v db (a, row, more) = (
  bumped k a,
  find_by-map (λ b. b.id == id) (bumped k) db.users a (λ b. ground arith) row,
  ground (arith, more),
)

risen :
    (id v : ℕ) (db : AuthDb)
    → AtLeast id v db
    → AtLeast id (suc v) (record db { users = bump_version id db.users })
unfolding get_user_by_id bump_version
risen id v db (a, row, more) =
    let own = (find_by-All (λ b. Unit) (λ b. b.id == id) db.users (All-any db.users) row).1 in
    (
      bumped id a,
      find_by-map (λ b. b.id == id) (bumped id) db.users a (λ b. ground arith) row,
      ground (arith, more, own),
    )

flagged-AtLeast :
    (k id v : ℕ) (is_active is_super_admin : Option Bool) (db : AuthDb)
    → AtLeast id v db
    → AtLeast id v (update_user_flags k is_active is_super_admin db)
unfolding get_user_by_id update_user_flags
flagged-AtLeast k id v is_active is_super_admin db (a, row, more) = (
  flagged k is_active is_super_admin a,
  find_by-map (λ b. b.id == id) (flagged k is_active is_super_admin) db.users a (λ b. ground arith)
      row,
  ground (arith, more),
)

created-AtLeast :
    (k id v : ℕ) (email hashed : Text) (super active : Bool) (db : AuthDb)
    → AtLeast id v db
    → AtLeast id v (create_user k email hashed super active db)
unfolding get_user_by_id create_user
created-AtLeast k id v email hashed super active db (a, row, more) =
    (a, find_by-snoc (λ b. b.id == id) db.users a _ row, more)

module _ (j : Jwt) (u : Uuid) (settings : Settings) where
  -- What can happen to the rows: a logout by anyone with anything, an administrator's change of the
  -- flags of a user, and a new user.
  pub data Step : AuthDb → AuthDb → Type 0 where
    logs_out :
        {db : AuthDb} (now : ℕ) (cookie header : Option Text)
        → Step db (logout j u settings now cookie header db).1
    flags :
        {db : AuthDb} (id : ℕ) (is_active is_super_admin : Option Bool)
        → Step db (update_user_flags id is_active is_super_admin db)
    joins :
        {db : AuthDb} (id : ℕ) (email hashed : Text) (super active : Bool)
        → Step db (create_user id email hashed super active db)

  pub data Steps : AuthDb → AuthDb → Type 0 where
    here : {db : AuthDb} → Steps db db
    then_step : {db db' db'' : AuthDb} → Steps db db' → Step db' db'' → Steps db db''

  revoke-AtLeast :
      (o : Option ℕ) (id v : ℕ) (db : AuthDb)
      → AtLeast id v db
      → AtLeast id v (revoke j u settings o db)
  unfolding revoke
  revoke-AtLeast none id v db h = h
  revoke-AtLeast (some k) id v db h = bumped-AtLeast k id v db h

  logged_out-AtLeast :
      (now id v : ℕ) (db : AuthDb) (r : Result (Option Text))
      → AtLeast id v db
      → AtLeast id v (logged_out j u settings now db r).1
  unfolding logged_out
  logged_out-AtLeast now id v db (err e) h = h
  logged_out-AtLeast now id v db (ok none) h = h
  logged_out-AtLeast now id v db (ok (some token)) h = revoke-AtLeast _ id v db h

  Steps-AtLeast : (id v : ℕ) {db db' : AuthDb} → Steps db db' → AtLeast id v db → AtLeast id v db'
  unfolding logout
  Steps-AtLeast id v here h = h
  Steps-AtLeast id v (then_step more (logs_out now cookie header)) h =
      logged_out-AtLeast now id v _ _ (Steps-AtLeast id v more h)
  Steps-AtLeast id v (then_step more (flags k is_active is_super_admin)) h =
      flagged-AtLeast k id v is_active is_super_admin _ (Steps-AtLeast id v more h)
  Steps-AtLeast id v (then_step more (joins k email hashed super active)) h =
      created-AtLeast k id v email hashed super active _ (Steps-AtLeast id v more h)

  live_refused :
      {A : Type 0} (secret key now : ℕ) (p : Payload)
      → live {A = A} secret key now p (err (http 401)) ≡ err (http 401)
  live_refused secret key now p = ground arith

  outdated :
      ((n : ℕ) → u.parse (u.str n) ≡ some n)
      → (now id v ttl : ℕ) (db : AuthDb) → AtLeast id (suc v) db
      → (admit_user j u settings db (user_payload j u settings now id access ttl v)
          ≡ err (http 401))
        × ((later : ℕ)
            → renewed j u settings later db (user_payload j u settings now id refresh ttl v)
              ≡ err (http 401))
  unfolding admit_user renewed
  outdated parse now id v ttl db (a, row, more) =
      let old : (a.is_active && v == a.token_version) ≡ false = ground (arith, more) in
      (rw (parse id, row, old) refl, λ later. rw (parse id, row, old) refl)

  revoked-AtLeast :
      (t id v c : ℕ) (token : Text) (q : Payload) (header : Option Text) (db : AuthDb)
      → decode_user_token j u settings t (c ∷ token) ≡ ok q
      → subject_id j u settings q ≡ some id
      → AtLeast id v db
      → AtLeast id (suc v) (logout j u settings t (some (c ∷ token)) header db).1
  unfolding logout logged_out token_of subject_of revoke
  revoked-AtLeast t id v c token q header db decoded subject h =
      rw (decoded, subject) (risen id v db h)

  -- A logout revokes for good: whatever has happened since a pair of tokens was issued to a user, once
  -- any valid token of this user has logged out by cookie, neither token of the pair is accepted again, whatever
  -- happens then: the access token is refused with 401 as a cookie and in the header, and the refresh
  -- token gives no new tokens.
  pub logout-revokes :
      JwtLaws j
      → ((n : ℕ) → u.parse (u.str n) ≡ some n)
      → (now t later c : ℕ) (token : Text) (a : Account) (q : Payload) (pair : TokenPair)
        (header any_header : Option Text) (db0 db1 db2 : AuthDb)
      → get_user_by_id a.id db0 ≡ some a
      → issue_tokens j u settings now a.id a.token_version ≡ ok pair
      → Steps db0 db1
      → decode_user_token j u settings t (c ∷ token) ≡ ok q
      → subject_id j u settings q ≡ some a.id
      → Steps (logout j u settings t (some (c ∷ token)) header db1).1 db2
      → (get_current_user j u settings later db2 (some pair.access_token) any_header
          ≡ err (http 401))
        × (get_current_user j u settings later db2 none (some (bearer_title ++ pair.access_token))
            ≡ err (http 401))
        × (refresh_tokens j u settings later db2 (some pair.refresh_token) ≡ err (http 401))
  unfolding issue_tokens create_user_token
  logout-revokes laws parse now t later c token a q pair header any_header db0 db1 db2 row issued
        before decoded subject after =
      let held = Steps-AtLeast a.id a.token_version before (a, row, omega arith) in
      let gone =
        Steps-AtLeast a.id (suc a.token_version) after
          (revoked-AtLeast t a.id a.token_version c token q header db1 decoded subject held) in
      let secret = settings.jwt_secret in
      let p = user_payload j u settings now a.id access settings.access_ttl a.token_version in
      let r = user_payload j u settings now a.id refresh settings.refresh_ttl a.token_version in
      let no_entry = (outdated parse now a.id a.token_version settings.access_ttl db2 gone).0 in
      let no_renewal =
        (outdated parse now a.id a.token_version settings.refresh_ttl db2 gone).1 later in
      let same = sym (ok-injective issued) in
      rw same (
        get_current_user-cookie j u settings laws db2 p secret later any_header
            ∙ rw no_entry (live_refused secret secret later p),
        get_current_user-header j u settings laws db2 p secret later
            ∙ rw no_entry (live_refused secret secret later p),
        refresh_tokens-encode j u settings laws db2 r secret later
            ∙ rw no_renewal (live_refused secret secret later r),
      )
