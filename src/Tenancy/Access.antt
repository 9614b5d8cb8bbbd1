-- ===== src/Tenancy/Access.antt =====
-- Theorems on deps/tenancy.py and on the member handlers of api/v1/org_team.py.
use sentry_backend.Base.{
  ℕ, ◌≡◌, ◌⊎◌, ◌≢◌, refl, subst, ap, ◌∙◌, Bool, true, false, not, ◌&&◌, Option, none, some, List,
  [], ◌∷◌, ◌==◌, if◌then◌else◌, arith, Bool-cases, inl, inr,
}
use sentry_backend.Base.Lists.{filter_by, find_by}
use sentry_backend.Base.Eq.{nat_eq}
use sentry_backend.Base.Sets.{IdSet, member}
use sentry_backend.Base.Action.{Result, ok, err, http, ok-injective}
use sentry_backend.Tenancy.{
  OrgRole, owner, admin, staff, User, OrganizationMember, Db, OrgHeader, no_header, malformed,
  org_header, memberships, choose, get_current_organization_id, is_membership, role_of,
  get_member_role, is_admin_role, require_admin, get_current_organization_id_admin, check_target,
  refusal, answer, remove_member, set_active, update_member,
}

chosen :
    (os : IdSet) (requested : Option ℕ) {org : ℕ}
    → choose os requested ≡ ok org
    → member org os ≡ true
unfolding choose member
chosen [] requested h = cc
chosen (o ∷ os) (some r) {org} h = elim (Bool-cases (member r (o ∷ os))) [
  | inl m ↦ ground (arith, h, m)
  | inr m ↦ ground (arith, h, m)
]
chosen (o ∷ []) none {org} h = ground (arith, h, ok-injective h)
chosen (o ∷ p ∷ os) none h = cc

picked :
    (b : Bool) (o : ℕ) (r : Result ℕ) {org : ℕ}
    → (if b then ok o else r) ≡ ok org
    → (b ≡ true) ⊎ (r ≡ ok org)
picked true o r h = inl refl
picked false o r h = inr h

current_member :
    (user : User) (header : OrgHeader) (db : Db) {org : ℕ}
    → get_current_organization_id user header db ≡ ok org
    → (user.is_super_admin ≡ true) ⊎ (member org (memberships user.id db.members) ≡ true)
unfolding get_current_organization_id
current_member user malformed db h = cc
current_member user no_header db h = inr (chosen (memberships user.id db.members) none h)
current_member user (org_header o) db h =
    let os = memberships user.id db.members in
    elim (picked user.is_super_admin o (choose os (some o)) h) [
      | inl s ↦ inl s
      | inr c ↦ inr (chosen os (some o) c)
    ]

admitted :
    (user : User) (db : Db) (r : Result ℕ) {org : ℕ}
    → require_admin user db r ≡ ok org
    → (r ≡ ok org)
      × ((user.is_super_admin ≡ true)
          ⊎ (is_admin_role (get_member_role user.id org db.members) ≡ true))
unfolding require_admin
admitted user db (err e) h = cc
admitted user db (ok o) {org} h =
    go user.is_super_admin (is_admin_role (get_member_role user.id o db.members)) refl refl h
  where
    go :
        (s m : Bool)
        → user.is_super_admin ≡ s
        → is_admin_role (get_member_role user.id o db.members) ≡ m
        → (if s then ok o else if m then ok o else err (http 403)) ≡ ok org
        → (ok o ≡ ok org)
          × ((user.is_super_admin ≡ true)
              ⊎ (is_admin_role (get_member_role user.id org db.members) ≡ true))
    go true m e f h = (h, inl e)
    go false true e f h = (
      h,
      inr (
          subst (λ x. is_admin_role (get_member_role user.id x db.members) ≡ true) (ok-injective h)
            f),
    )
    go false false e f h = cc

-- A user who is let through as an organization's administrator is a super-administrator, or is a
-- member of that organization with the role owner or admin; whatever the header asks for.
pub get_admin-Allowed :
    (user : User) (header : OrgHeader) (db : Db) {org : ℕ}
    → get_current_organization_id_admin user header db ≡ ok org
    → (user.is_super_admin ≡ true)
      ⊎ ((member org (memberships user.id db.members) ≡ true)
          × (is_admin_role (get_member_role user.id org db.members) ≡ true))
unfolding get_current_organization_id_admin
get_admin-Allowed user header db h =
    let (passed, role) = admitted user db (get_current_organization_id user header db) h in
    elim role [
      | inl s ↦ inl s
      | inr r ↦ elim (current_member user header db passed) [ inl s ↦ inl s | inr m ↦ inr (m, r) ]
    ]

find_filter :
    (u o x p : ℕ) (ms : List OrganizationMember)
    → (u == x && o == p) ≡ false
    → find_by (is_membership x p) (filter_by (λ m. not (is_membership u o m)) ms)
      ≡ find_by (is_membership x p) ms
find_filter u o x p [] h = refl
find_filter u o x p (m ∷ ms) h = ground (arith, h, find_filter u o x p ms h)

-- An owner, or the actor, is refused as the target.
owner_refused :
    (actor user org : ℕ) (db : Db)
    → (get_member_role user org db.members ≡ some owner) ⊎ (user ≡ actor)
    → refusal actor user org db ≢ none
unfolding refusal check_target
owner_refused actor user org db (inl o) e = ground (arith, o, e)
owner_refused actor user org db (inr a) e = ground (arith, a, e)

no_refusal :
    (actor user org x p : ℕ) (db : Db) {A : Type 0}
    → (user == x && org == p) ≡ true
    → ((user == x && org == p) ≡ false)
      ⊎ (get_member_role x p db.members ≡ some owner)
      ⊎ (x ≡ actor)
    → refusal actor user org db ≡ none
    → A
no_refusal actor user org x p db same h e =
    let u : user ≡ x = ground (arith, same) in
    let o : org ≡ p = ground (arith, same) in
    elim h [
      | inl other ↦ cc
      | inr (inl role) ↦ absurd (owner_refused actor user org db (inl (rw (u, o) role)) e)
      | inr (inr a) ↦ absurd (owner_refused actor user org db (inr (u ∙ a)) e)
    ]

-- Removing a member leaves every other membership of every organization as it was, and the
-- memberships of owners and the actor's own in any case.
pub remove_member-Keeps :
    (actor org user : ℕ) (db : Db) (x p : ℕ)
    → let db' = (remove_member actor org user db).1 in
      ((user == x && org == p) ≡ false)
        ⊎ (get_member_role x p db.members ≡ some owner)
        ⊎ (x ≡ actor)
      → get_member_role x p db'.members ≡ get_member_role x p db.members
unfolding remove_member answer get_member_role
remove_member-Keeps actor org user db x p h = go (refusal actor user org db) refl
  where
    go :
        (r : Option ℕ)
        → refusal actor user org db ≡ r
        → get_member_role x p
            (answer r
              (record db { members = filter_by (λ m. not (is_membership user org m)) db.members })
              db).1.members
          ≡ get_member_role x p db.members
    go (some code) e = refl
    go none e = elim (Bool-cases (user == x && org == p)) [
      | inr other ↦ ap role_of (find_filter user org x p db.members other)
      | inl same ↦ no_refusal actor user org x p db same h e
    ]

-- The row of a user; the id is the primary key.
abbrev pub user_row : ℕ → List User → Option User
user_row x us = find_by (λ u. u.id == x) us

abbrev with_flag : Bool → Option User → Option User
with_flag on none = none
with_flag on (some u) = some (record u { is_active = on })

find-set_active :
    (user x : ℕ) (on : Bool) (us : List User)
    → user_row x (set_active user on us)
      ≡ (if user == x then with_flag on (user_row x us) else user_row x us)
unfolding set_active
find-set_active user x on [] = ground arith
find-set_active user x on (u ∷ us) = elim (Bool-cases (u.id == user)) [
  | inl hit ↦ elim (Bool-cases (u.id == x)) [
    | inl e ↦ rw (find_by, hit, e) (ground (arith, hit, e))
    | inr e ↦ rw (find_by, hit, e) (find-set_active user x on us)
  ]
  | inr other ↦ elim (Bool-cases (u.id == x)) [
    | inl e ↦ rw (find_by, other, e) (ground (arith, other, e))
    | inr e ↦ rw (find_by, other, e) (find-set_active user x on us)
  ]
]

-- What the handler that locks or unlocks a member has done: nothing, for the actor, for one who is no
-- member of the organization, and for an owner of it; else only the member's flag has changed.
abbrev pub Locks : ℕ → ℕ → ℕ → Bool → Db → Result (Unit {0}) × Db → Type 0
Locks actor org user on db (err e, db') =
    (db' ≡ db)
    × ((user ≡ actor)
        ⊎ (get_member_role user org db.members ≡ none)
        ⊎ (get_member_role user org db.members ≡ some owner))
Locks actor org user on db (ok done, db') =
    (user ≢ actor)
    × (get_member_role user org db.members ≢ none)
    × (get_member_role user org db.members ≢ some owner)
    × ((x : ℕ)
        → user_row x db'.users
          ≡ (if user == x then with_flag on (user_row x db.users) else user_row x db.users))
    × (db'.members ≡ db.members)
    × (db'.invitations ≡ db.invitations)

-- Locking or unlocking a member is refused, and changes nothing, exactly for the actor, for one who is
-- no member of the organization that is acted in, and for an owner of it. Else the member's flag is the
-- one asked for, in all organizations since it is the user's, and no other user and no membership has
-- changed.
pub update_member-Locks :
    (actor org user : ℕ) (on : Bool) (db : Db)
    → Locks actor org user on db (update_member actor org user on db)
unfolding update_member answer refusal check_target
update_member-Locks actor org user on db = elim (Bool-cases (user == actor)) [
  | inl self ↦ rw self (refl, inl (ground (arith, self)))
  | inr other ↦ rw other (go other (get_member_role user org db.members) refl)
]
  where
    go :
        (user == actor) ≡ false
        → (r : Option OrgRole) → get_member_role user org db.members ≡ r
        → Locks actor org user on db (
            answer
              (check_target actor user org db r)
              (record db { users = set_active user on db.users })
              db)
    go other none e = (refl, inr (inl e))
    go other (some owner) e = (refl, inr (inr e))
    go other (some admin) e = (
      λ h. ground (arith, h, other),
      λ h. cc,
      λ h. cc,
      λ x. find-set_active user x on db.users,
      refl,
      refl,
    )
    go other (some staff) e = (
      λ h. ground (arith, h, other),
      λ h. cc,
      λ h. cc,
      λ x. find-set_active user x on db.users,
      refl,
      refl,
    )
