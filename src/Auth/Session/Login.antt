-- ===== src/Auth/Session/Login.antt =====
-- Theorems on login, the dependencies and refresh together: api/v1/auth.py and deps/auth.py.
use sentry_backend.Base.{
  ℕ, ◌+◌, ◌≡◌, refl, Bool, true, false, Option, none, some, List, [], ◌∷◌, ◌++◌, leb, ◌==◌,
  Bool-cases, inl, inr, ap, sym, ◌∙◌, arith, ==_refl,
}
use sentry_backend.Base.Lists.{find_by, some_inj, find_by-All, All}
use sentry_backend.Base.Action.{Error, ok, err, http, ok-injective}
use sentry_backend.Auth.{
  Text, access, refresh, Payload, Jwt, JwtLaws, Uuid, Settings, Account, AuthDb,
}
use sentry_backend.Auth.Token.{user_payload, create_user_token}
use sentry_backend.Auth.Doors.{bearer_title, admit_user, get_user_by_id, get_current_user}
use sentry_backend.Auth.Doors.Admits.{
  live, get_current_user-cookie, get_current_user-header, decode_user_token-encode,
}
use sentry_backend.Auth.Session.{
  TokenPair, checked, issued_to, authenticate, get_user_by_email, issue_tokens, login,
  refresh_tokens, renewed,
}

-- The primary key: an id is the id of one row.
abbrev pub IsKeyed : List Account → Type 0
IsKeyed [] = Unit
IsKeyed (a ∷ users) = All (λ b. (a.id == b.id) ≡ false) users × IsKeyed users

own_head :
    (p : Account → Bool) (b a : Account) (users : List Account)
    → p b ≡ true
    → some b ≡ some a
    → (find_by (λ c. c.id == a.id) (b ∷ users) ≡ some a) × (p a ≡ true)
own_head p b a users hit h = ground (arith, hit, some_inj h, ap p (some_inj h))

-- The row found by another test is the row of its own id.
find_by-own :
    (p : Account → Bool) (users : List Account) (a : Account)
    → IsKeyed users
    → find_by p users ≡ some a
    → (find_by (λ b. b.id == a.id) users ≡ some a) × (p a ≡ true)
find_by-own p [] a keyed h = ground (arith, h)
find_by-own p (b ∷ users) a keyed h = elim (Bool-cases (p b)) [
  | inl hit ↦ own_head p b a users hit (rw (find_by, hit) at h)
  | inr miss ↦
      let rest = find_by-own p users a keyed.1 (rw (find_by, miss) at h) in
      let apart =
        find_by-All (λ c. (b.id == c.id) ≡ false) p users keyed.0 (rw (find_by, miss) at h) in
      (rw (find_by, apart.0) rest.0, rest.1)
]

never : {A B : Type 0} (e : Error) (a : A) → err e ≡ ok a → B
never e a h = cc

module _ (j : Jwt) (u : Uuid) (settings : Settings) where
  abbrev pub pair_of : ℕ → Account → TokenPair
  pair_of now a = record {
    access_token =
        j.encode (user_payload j u settings now a.id access settings.access_ttl a.token_version)
          settings.jwt_secret;
    refresh_token =
        j.encode (user_payload j u settings now a.id refresh settings.refresh_ttl a.token_version)
          settings.jwt_secret;
  }

  admits_pair :
      JwtLaws j
      → ((n : ℕ) → u.parse (u.str n) ≡ some n)
      → (now later : ℕ) (db : AuthDb) (a : Account) → get_user_by_id a.id db ≡ some a
      → a.is_active ≡ true
      → admit_user j u settings db
          (user_payload j u settings now a.id access settings.access_ttl a.token_version)
        ≡ ok a
  unfolding admit_user
  admits_pair laws parse now later db a row active =
      rw (parse a.id, row, active, ==_refl a.token_version) refl

  renewed_lem :
      ((n : ℕ) → u.parse (u.str n) ≡ some n)
      → (now later : ℕ) (db : AuthDb) (a : Account) → get_user_by_id a.id db ≡ some a
      → a.is_active ≡ true
      → renewed j u settings later db
          (user_payload j u settings now a.id refresh settings.refresh_ttl a.token_version)
        ≡ issue_tokens j u settings later a.id a.token_version
  unfolding renewed
  renewed_lem parse now later db a row active =
      rw (parse a.id, row, active, ==_refl a.token_version) refl

  pub refresh_tokens-encode :
      JwtLaws j
      → (db : AuthDb) (p : Payload) (secret now : ℕ)
      → refresh_tokens j u settings now db (some (j.encode p secret))
        ≡ live secret settings.jwt_secret now p (renewed j u settings now db p)
  unfolding refresh_tokens
  refresh_tokens-encode laws db p secret now =
      let (c, cs, e, graphic) = laws.starts p secret in
      let d =
        decode_user_token-encode j u settings laws p secret now (renewed j u settings now db) in
      rw e ((rw e at d))

  checked_pair :
      (verify_password : Text → Text → Bool) (now : ℕ) (password : Text) (o : Option Account)
      (pair : TokenPair)
      → issued_to j u settings now (checked verify_password password o) ≡ ok pair
      → (a : Account) × (o ≡ some a)
        × (a.is_active ≡ true)
        × (verify_password password a.hashed_password ≡ true)
        × (pair ≡ pair_of now a)
  unfolding issue_tokens create_user_token
  checked_pair verify_password now password none pair h = ground (arith, h)
  checked_pair verify_password now password (some a) pair h = elim (Bool-cases a.is_active) [
    | inl active ↦ elim (Bool-cases (verify_password password a.hashed_password)) [
      | inl good ↦ (a, refl, active, good, sym (ok-injective (rw (active, good) at h)))
      | inr bad ↦ never (http 401) pair (rw (active, bad) at h)
    ]
    | inr idle ↦ never (http 401) pair (rw idle at h)
  ]

  -- A login that succeeds is that of an active user with this e-mail and password, and while its tokens
  -- have not expired they are worth what they should: the access token lets in exactly this user, by
  -- cookie and by header, and the refresh token gives a new pair of tokens to the same user.
  pub login-admits :
      JwtLaws j
      → ((n : ℕ) → u.parse (u.str n) ≡ some n)
      → (verify_password same_text : Text → Text → Bool) (now later : ℕ) (email password : Text)
        (db : AuthDb) (pair : TokenPair) (header : Option Text)
      → IsKeyed db.users
      → login j u settings verify_password same_text now email password db ≡ ok pair
      → (a : Account) × (same_text a.email email ≡ true)
        × (verify_password password a.hashed_password ≡ true)
        × (leb later (now + settings.access_ttl) ≡ true
            → (get_current_user j u settings later db (some pair.access_token) header ≡ ok a)
              × (get_current_user j u settings later db none
                    (some (bearer_title ++ pair.access_token))
                  ≡ ok a))
        × (leb later (now + settings.refresh_ttl) ≡ true
            → refresh_tokens j u settings later db (some pair.refresh_token)
              ≡ issue_tokens j u settings later a.id a.token_version)
  unfolding login authenticate get_user_by_email get_user_by_id
  login-admits laws parse verify_password same_text now later email password db pair header keyed
        h =
      let (a, found, active, good, same) =
        checked_pair verify_password now password (get_user_by_email same_text email db) pair h in
      let own = find_by-own (λ b. same_text b.email email) db.users a keyed found in
      let let_in = admits_pair laws parse now later db a own.0 active in
      let secret = settings.jwt_secret in
      let p = user_payload j u settings now a.id access settings.access_ttl a.token_version in
      let r = user_payload j u settings now a.id refresh settings.refresh_ttl a.token_version in
      let renew = renewed_lem parse now later db a own.0 active in
      (
        a,
        own.1,
        good,
        λ fresh. rw same (
          get_current_user-cookie j u settings laws db p secret later header
              ∙ rw (==_refl secret, fresh) let_in,
          get_current_user-header j u settings laws db p secret later
              ∙ rw (==_refl secret, fresh) let_in,
        ),
        λ fresh.
            rw same
              (refresh_tokens-encode laws db r secret later ∙ rw (==_refl secret, fresh) renew),
      )
