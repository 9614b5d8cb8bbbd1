-- ===== src/Auth/Plain.antt =====
-- A token that writes its key and its claims out: an instance of the interface and its laws.
use sentry_backend.Base.{
  ℕ, zero, suc, ◌≡◌, refl, Option, none, some, [], ◌∷◌, ◌++◌, leb, ◌==◌, if◌then◌else◌, arith,
}
use sentry_backend.Base.Lists.{length}
use sentry_backend.Auth.{
  Text, TokenType, access, refresh, service, stream, agent, ai_node, other, Payload, Jwt, JwtLaws,
  Uuid, Settings,
}

abbrev write_text : Option Text → Text → Text
write_text none rest = 0 ∷ rest
write_text (some t) rest = suc (length t) ∷ (t ++ rest)

abbrev cut : ℕ → Text → Text × Text
cut zero rest = ([], rest)
cut (suc n) [] = ([], [])
cut (suc n) (c ∷ rest) = let (t, more) = cut n rest in (c ∷ t, more)

abbrev read_text : Text → Option Text × Text
read_text [] = (none, [])
read_text (zero ∷ rest) = (none, rest)
read_text (suc n ∷ rest) = let (t, more) = cut n rest in (some t, more)

cut-append : (t rest : Text) → cut (length t) (t ++ rest) ≡ (t, rest)
cut-append [] rest = refl
cut-append (c ∷ t) rest = rw (cut-append t rest) refl

read_text-write_text : (o : Option Text) (rest : Text) → read_text (write_text o rest) ≡ (o, rest)
read_text-write_text none rest = refl
read_text-write_text (some t) rest = rw (cut-append t rest) refl

abbrev typ_text : Option TokenType → ℕ × Option Text
typ_text none = (0, none)
typ_text (some access) = (1, none)
typ_text (some refresh) = (2, none)
typ_text (some service) = (3, none)
typ_text (some stream) = (4, none)
typ_text (some agent) = (5, none)
typ_text (some ai_node) = (6, none)
typ_text (some (other t)) = (7, some t)

abbrev text_typ : ℕ → Option Text → Option TokenType
text_typ code (some t) = some (other t)
text_typ code none =
    if code == 1
    then some access
    else if code == 2
    then some refresh
    else if code == 3
    then some service
    else if code == 4
    then some stream
    else if code == 5
    then some agent
    else if code == 6
    then some ai_node
    else none

text_typ-typ_text : (t : Option TokenType) → text_typ (typ_text t).0 (typ_text t).1 ≡ t
text_typ-typ_text none = refl
text_typ-typ_text (some access) = refl
text_typ-typ_text (some refresh) = refl
text_typ-typ_text (some service) = refl
text_typ-typ_text (some stream) = refl
text_typ-typ_text (some agent) = refl
text_typ-typ_text (some ai_node) = refl
text_typ-typ_text (some (other t)) = refl

abbrev write_tv : Option ℕ → ℕ
write_tv none = 0
write_tv (some v) = suc v

abbrev read_tv : ℕ → Option ℕ
read_tv zero = none
read_tv (suc v) = some v

read_tv-write_tv : (o : Option ℕ) → read_tv (write_tv o) ≡ o
read_tv-write_tv none = refl
read_tv-write_tv (some v) = refl

abbrev pub write : Payload → Text
write p =
    p.iat
    ∷ p.exp
    ∷ write_tv p.tv
    ∷ (typ_text p.typ).0
    ∷ write_text (typ_text p.typ).1
        (write_text p.sub (write_text p.path (write_text p.service_name [])))

abbrev read_claims : ℕ → ℕ → ℕ → ℕ → Text → Payload
read_claims iat exp tv code rest =
    let (t, r1) = read_text rest in
    let (sub, r2) = read_text r1 in
    let (path, r3) = read_text r2 in
    let (name, r4) = read_text r3 in
    record {
      sub = sub;
      iat = iat;
      exp = exp;
      typ = text_typ code t;
      tv = read_tv tv;
      path = path;
      service_name = name;
    }

abbrev unexpired : ℕ → Payload → Option Payload
unexpired now p = if leb now p.exp then some p else none

abbrev decode : Text → ℕ → ℕ → Option Payload
decode (c ∷ secret ∷ iat ∷ exp ∷ tv ∷ code ∷ rest) key now =
    if secret == key then unexpired now (read_claims iat exp tv code rest) else none
decode _ key now = none

abbrev pub plain : Jwt
plain = record { encode = λ p secret. 50 ∷ secret ∷ write p; decode = decode }

read_claims-write :
    (p : Payload)
    → read_claims p.iat p.exp (write_tv p.tv) (typ_text p.typ).0 (
        write_text
          (typ_text p.typ).1
          (write_text p.sub (write_text p.path (write_text p.service_name []))))
      ≡ p
read_claims-write p =
    rw
      (
        read_text-write_text (typ_text p.typ).1
            (write_text p.sub (write_text p.path (write_text p.service_name []))),
        read_text-write_text p.sub (write_text p.path (write_text p.service_name [])),
        read_text-write_text p.path (write_text p.service_name []),
        read_text-write_text p.service_name [],
        text_typ-typ_text p.typ,
        read_tv-write_tv p.tv,
      )
      refl

pub plain-laws : JwtLaws plain
plain-laws = record {
  decode-encode = λ p secret key now. rw (read_claims-write p) (ground arith);
  starts = λ p secret. (50, secret ∷ write p, refl, refl);
}

abbrev pub numbers : Uuid
numbers = record { str = λ n. n ∷ []; parse = λ t. elim t [ [] ↦ none | n ∷ _ ↦ some n ] }

abbrev pub limits : Settings
limits = record {
  jwt_secret = 11;
  service_token_secret = 12;
  access_ttl = 900;
  refresh_ttl = 604_800;
  service_ttl = 86_400;
  stream_ttl = 60;
  mediamtx_auth_secret = none;
  publish_user = none;
  publish_pass = none;
  api_user = none;
  api_pass = none;
}
