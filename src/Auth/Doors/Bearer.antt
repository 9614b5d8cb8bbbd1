-- ===== src/Auth/Doors/Bearer.antt =====
-- Theorems on `extract_token` of deps/auth.py with the tokens that the code encodes.
use sentry_backend.Base.{
  ℕ, ◌≡◌, refl, true, false, Option, none, some, [], ◌∷◌, ◌++◌, leb, ◌&&◌, arith,
}
use sentry_backend.Base.Action.{ok}
use sentry_backend.Auth.{Text, Payload, Jwt, JwtLaws}
use sentry_backend.Auth.Doors.{
  is_space, bearer_title, starts_lower, split_second, strip_start, after_word, second, bearer_token,
  extract_token,
}

pub graphic_no_space : (c : ℕ) → (leb 43 c && leb c 126) ≡ true → is_space c ≡ false
graphic_no_space c h = ground (arith, h)

bearer_token-title :
    (c : ℕ) (cs : Text)
    → is_space c ≡ false
    → bearer_token (some (bearer_title ++ (c ∷ cs))) ≡ ok (c ∷ cs)
unfolding bearer_token starts_lower split_second strip_start after_word second
bearer_token-title c cs h = rw h refl

-- What `jwt.encode` returns is read back from the header "Bearer " with the token, whether the cookie
-- is missing or empty, and from the cookie, whatever the header.
pub extract_token-encode :
    (j : Jwt)
    → JwtLaws j
    → (p : Payload) (secret : ℕ) (header : Option Text)
    → (extract_token none (some (bearer_title ++ j.encode p secret)) ≡ ok (j.encode p secret))
      × (extract_token (some []) (some (bearer_title ++ j.encode p secret))
          ≡ ok (j.encode p secret))
      × (extract_token (some (j.encode p secret)) header ≡ ok (j.encode p secret))
unfolding extract_token
extract_token-encode j laws p secret header =
    let (c, cs, e, graphic) = laws.starts p secret in
    let read = bearer_token-title c cs (graphic_no_space c graphic) in rw e (read, read, refl)
