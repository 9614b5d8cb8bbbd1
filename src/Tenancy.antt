-- ===== src/Tenancy.antt =====
-- Who may act in an organization: deps/tenancy.py, and the handlers of api/v1/org_team.py that change
-- the team, with the queries of repository/org_repo.py and repository/invitation_repo.py. Identifiers,
-- e-mail addresses and token hashes are numbers that are only compared. Passwords, the activity log
-- and the mail are left out.
pub mod Access
pub mod Invitations
mod Tests
use sentry_backend.Base.{
  ℕ, suc, ◌+◌, ◌*◌, Bool, true, false, not, ◌&&◌, ◌||◌, Option, none, some, List, [], ◌∷◌, map, ltb,
  ◌==◌, if◌then◌else◌, is_some,
}
use sentry_backend.Base.Lists.{filter_by, find_by}
use sentry_backend.Base.Eq.{nat_eq}
use sentry_backend.Base.Sets.{IdSet, member}
use sentry_backend.Base.Action.{
  Action, Result, ok, err, http, transaction, raise_if, or_raise, gets, modify, pure, ◌>>=◌, ◌>>◌,
}

pub data OrgRole : Type 0 where
  owner admin staff : OrgRole

pub record User : Type 0 where
  pub id : ℕ
  pub email : ℕ
  pub is_super_admin : Bool
  pub is_active : Bool

pub record OrganizationMember : Type 0 where
  pub user_id : ℕ
  pub organization_id : ℕ
  pub role : OrgRole

pub record Invitation : Type 0 where
  pub id : ℕ
  pub email : ℕ
  pub organization_id : ℕ
  pub role : OrgRole
  pub token_hash : ℕ
  pub expires_at : ℕ
  pub accepted_at : Option ℕ

pub record Db : Type 0 where
  pub users : List User
  pub members : List OrganizationMember
  pub invitations : List Invitation
  pub fresh : ℕ

-- The X-Org-Id header: absent or blank, not a UUID, or an organization.
pub data OrgHeader : Type 0 where
  no_header malformed : OrgHeader
  org_header : ℕ → OrgHeader

unfoldable pub memberships : ℕ → List OrganizationMember → IdSet
memberships user ms = map (λ m. m.organization_id) (filter_by (λ m. m.user_id == user) ms)

choose : IdSet → Option ℕ → Result ℕ
choose [] requested = err (http 403)
choose (o ∷ os) (some requested) =
    if member requested (o ∷ os) then ok requested else err (http 403)
choose (o ∷ []) none = ok o
choose (o ∷ p ∷ os) none = err (http 400)

unfoldable pub get_current_organization_id : User → OrgHeader → Db → Result ℕ
unfolding choose memberships
get_current_organization_id user malformed db = err (http 400)
get_current_organization_id user no_header db = choose (memberships user.id db.members) none
get_current_organization_id user (org_header o) db =
    if user.is_super_admin then ok o else choose (memberships user.id db.members) (some o)

abbrev is_membership : ℕ → ℕ → OrganizationMember → Bool
is_membership user org m = m.user_id == user && m.organization_id == org

abbrev role_of : Option OrganizationMember → Option OrgRole
role_of none = none
role_of (some m) = some m.role

-- The pair of ids is the primary key.
unfoldable pub get_member_role : ℕ → ℕ → List OrganizationMember → Option OrgRole
get_member_role user org ms = role_of (find_by (is_membership user org) ms)

abbrev pub is_admin_role : Option OrgRole → Bool
is_admin_role none = false
is_admin_role (some owner) = true
is_admin_role (some admin) = true
is_admin_role (some staff) = false

require_admin : User → Db → Result ℕ → Result ℕ
unfolding get_member_role
require_admin user db (err e) = err e
require_admin user db (ok org) =
    if user.is_super_admin
    then ok org
    else if is_admin_role (get_member_role user.id org db.members)
    then ok org
    else err (http 403)

unfoldable pub get_current_organization_id_admin : User → OrgHeader → Db → Result ℕ
unfolding require_admin get_current_organization_id
get_current_organization_id_admin user header db =
    require_admin user db (get_current_organization_id user header db)

abbrev is_owner_role : OrgRole → Bool
is_owner_role owner = true
is_owner_role admin = false
is_owner_role staff = false

-- The checks that the two handlers on a member share: not oneself, a member, and not an owner.
unfoldable pub check_target : ℕ → ℕ → ℕ → Db → Option OrgRole → Option ℕ
check_target actor user org db none = some 404
check_target actor user org db (some role) = if is_owner_role role then some 403 else none

unfoldable pub refusal : ℕ → ℕ → ℕ → Db → Option ℕ
unfolding check_target get_member_role
refusal actor user org db =
    if user == actor
    then some 400
    else check_target actor user org db (get_member_role user org db.members)

answer : Option ℕ → Db → Action Db (Unit {0})
answer none after db = (ok tt, after)
answer (some code) after db = (err (http code), db)

-- `DELETE /members/{user_id}`, of an actor that acts in `org`
unfoldable pub remove_member : ℕ → ℕ → ℕ → Action Db (Unit {0})
unfolding refusal answer
remove_member actor org user db =
    answer (refusal actor user org db)
      (record db { members = filter_by (λ m. not (is_membership user org m)) db.members }) db

set_active : ℕ → Bool → List User → List User
set_active user on us = map (λ u. if u.id == user then record u { is_active = on } else u) us

-- `PATCH /members/{user_id}`
unfoldable pub update_member : ℕ → ℕ → ℕ → Bool → Action Db (Unit {0})
unfolding refusal answer set_active
update_member actor org user on db =
    answer (refusal actor user org db) (record db { users = set_active user on db.users }) db

abbrev pub has_email : ℕ → List User → Bool
has_email email [] = false
has_email email (u ∷ us) = u.email == email || has_email email us

-- `POST /invitations`; `token_hash` is the hash of a new random token. The body's validator refuses the
-- role owner.
unfoldable pub create_invitation : ℕ → ℕ → ℕ → OrgRole → ℕ → ℕ → Action Db ℕ
create_invitation now org email role token_hash invite_ttl_hours db =
    if is_owner_role role
    then (err (http 422), db)
    else if has_email email db.users
    then (err (http 409), db)
    else (
      ok db.fresh,
      record db {
        invitations =
            record {
              id = db.fresh;
              email = email;
              organization_id = org;
              role = role;
              token_hash = token_hash;
              expires_at = now + invite_ttl_hours * 3_600_000_000;
              accepted_at = none;
            }
            ∷ db.invitations;
        fresh = suc db.fresh;
      },
    )

abbrev in_org : ℕ → Option Invitation → Bool
in_org org none = false
in_org org (some i) = i.organization_id == org

-- `DELETE /invitations/{invitation_id}`
unfoldable pub cancel_invitation : ℕ → ℕ → Action Db (Unit {0})
cancel_invitation org id db =
    if in_org org (find_by (λ i. i.id == id) db.invitations)
    then (ok tt, record db { invitations = filter_by (λ i. not (i.id == id)) db.invitations })
    else (err (http 404), db)

-- Not accepted, and not expired.
abbrev pub is_valid : ℕ → ℕ → Invitation → Bool
is_valid token_hash now i =
    i.token_hash == token_hash && not (is_some i.accepted_at) && ltb now i.expires_at

-- `scalar_one_or_none` raises on a second row.
abbrev one_or_none : List Invitation → Result (Option Invitation)
one_or_none [] = ok none
one_or_none (i ∷ []) = ok (some i)
one_or_none (i ∷ j ∷ is) = err (http 500)

unfoldable pub get_valid_by_token_hash : ℕ → ℕ → List Invitation → Result (Option Invitation)
get_valid_by_token_hash token_hash now is = one_or_none (filter_by (is_valid token_hash now) is)

unfoldable pub mark_accepted : ℕ → ℕ → List Invitation → List Invitation
mark_accepted now id [] = []
mark_accepted now id (i ∷ is) =
    (if i.id == id then record i { accepted_at = some now } else i) ∷ mark_accepted now id is

join : ℕ → Result (Option Invitation) → Action Db User
unfolding mark_accepted
join now (err e) db = (err e, db)
join now (ok none) db = (err (http 400), db)
join now (ok (some i)) db =
    let u : User = record {
      id = db.fresh;
      email = i.email;
      is_super_admin = false;
      is_active = true;
    } in
    if has_email i.email db.users then (err (http 409), db) else (
      ok u,
      record {
        users = u ∷ db.users;
        members =
            record { user_id = u.id; organization_id = i.organization_id; role = i.role }
            ∷ db.members;
        invitations = mark_accepted now i.id db.invitations;
        fresh = suc db.fresh;
      },
    )

-- `POST /accept-invite`, for a token with this hash
unfoldable pub accept_invite : ℕ → ℕ → Action Db User
unfolding join get_valid_by_token_hash
accept_invite now token_hash db =
    join now (get_valid_by_token_hash token_hash now db.invitations) db
