-- ===== src/Tenancy/Tests.antt =====
-- The theorems on organizations and their members at concrete inputs.
use sentry_backend.Base.{◌≡◌, ◌⊎◌, refl, true, false, none, [], ◌∷◌, arith, inl}
use sentry_backend.Base.Eq.{nat_eq}
use sentry_backend.Base.Sets.{member}
use sentry_backend.Base.Action.{ok, err, http}
use sentry_backend.Tenancy.{
  owner, admin, staff, User, Db, org_header, memberships, get_member_role, is_admin_role,
  get_current_organization_id_admin, remove_member, update_member, accept_invite,
}
use sentry_backend.Tenancy.Access.{
  get_admin-Allowed, remove_member-Keeps, Locks, update_member-Locks,
}
use sentry_backend.Tenancy.Invitations.{accept_invite_once}

abbrev boss : User
boss = record { id = 1; email = 50; is_super_admin = false; is_active = true }

-- User 1 owns organization 7, where user 2 is staff; an invitation to it is open until 100.
abbrev team : Db
team = record {
  users = boss ∷ record { id = 2; email = 51; is_super_admin = false; is_active = true } ∷ [];
  members =
      record { user_id = 1; organization_id = 7; role = owner }
      ∷ record { user_id = 2; organization_id = 7; role = staff }
      ∷ [];
  invitations =
      record {
        id = 3;
        email = 52;
        organization_id = 7;
        role = admin;
        token_hash = 99;
        expires_at = 100;
        accepted_at = none;
      }
      ∷ [];
  fresh = 9;
}

abbrev joiner : User
joiner = record { id = 9; email = 52; is_super_admin = false; is_active = true }

admin-run : get_current_organization_id_admin boss (org_header 7) team ≡ ok 7
unfolding get_current_organization_id_admin member
admin-run = refl

accept-run : (accept_invite 40 99 team).0 ≡ ok joiner
unfolding accept_invite
accept-run = refl

get_admin-Allowed_example :
    (boss.is_super_admin ≡ true)
    ⊎ ((member 7 (memberships boss.id team.members) ≡ true)
        × (is_admin_role (get_member_role boss.id 7 team.members) ≡ true))
get_admin-Allowed_example = get_admin-Allowed boss (org_header 7) team admin-run

remove_member-Keeps_example :
    get_member_role 1 7 (remove_member 1 7 2 team).1.members ≡ get_member_role 1 7 team.members
remove_member-Keeps_example = remove_member-Keeps 1 7 2 team 1 7 (inl refl)

update_member-Locks_example : Locks 1 7 2 false team (update_member 1 7 2 false team)
update_member-Locks_example = update_member-Locks 1 7 2 false team

accept_invite_once_example :
    accept_invite 60 99 (accept_invite 40 99 team).1
    ≡ (err (http 400), (accept_invite 40 99 team).1)
accept_invite_once_example = accept_invite_once 40 60 99 team (omega arith) accept-run
