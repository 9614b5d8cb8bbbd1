-- ===== src/Tenancy/Invitations.antt =====
-- Theorems on the invitations of api/v1/org_team.py.
use sentry_backend.Base.{
  ℕ, suc, ◌≤◌, ◌≡◌, ◌⊎◌, refl, subst, ap, ◌∙◌, Bool, true, false, List, [], ◌∷◌, if◌then◌else◌,
  arith, inl, inr,
}
use sentry_backend.Base.Lists.{filter_by}
use sentry_backend.Base.Action.{Result, ok, err, http, ok-injective}
use sentry_backend.Tenancy.{
  User, Invitation, Db, has_email, is_valid, one_or_none, get_valid_by_token_hash, mark_accepted,
  join, accept_invite,
}

-- Time only ends the validity of invitations, and so does their acceptance.
still_none :
    (token now later at id : ℕ) (is : List Invitation)
    → now ≤ later
    → filter_by (is_valid token now) is ≡ []
    → filter_by (is_valid token later) (mark_accepted at id is) ≡ []
unfolding mark_accepted
still_none token now later at id [] le h = refl
still_none token now later at id (i ∷ is) le h =
    ground (arith, le, h, still_none token now later at id is le)

one_left :
    (b : Bool) (j i : Invitation) (rest : List Invitation)
    → elim b [ true ↦ j ∷ rest | false ↦ rest ] ≡ i ∷ []
    → ((j ≡ i) × (rest ≡ [])) ⊎ ((b ≡ false) × (rest ≡ i ∷ []))
one_left true j i rest h = inl (cc, cc)
one_left false j i rest h = inr (refl, h)

head_marked :
    (token now at id : ℕ) (j : Invitation) (is : List Invitation)
    → j.id ≡ id
    → filter_by (is_valid token now) (mark_accepted at id is) ≡ []
    → filter_by (is_valid token now) (mark_accepted at id (j ∷ is)) ≡ []
unfolding mark_accepted
head_marked token now at id j is same h = ground (arith, same, h)

head_invalid :
    (token now later at id : ℕ) (j : Invitation) (is : List Invitation)
    → now ≤ later
    → is_valid token now j ≡ false
    → filter_by (is_valid token later) (mark_accepted at id is) ≡ []
    → filter_by (is_valid token later) (mark_accepted at id (j ∷ is)) ≡ []
unfolding mark_accepted
head_invalid token now later at id j is le v h = ground (arith, le, v, h)

-- Once the one valid invitation is marked, none is valid at any later time.
then_none :
    (token now later at : ℕ) (i : Invitation) (is : List Invitation)
    → now ≤ later
    → filter_by (is_valid token now) is ≡ i ∷ []
    → filter_by (is_valid token later) (mark_accepted at i.id is) ≡ []
then_none token now later at i [] le h = cc
then_none token now later at i (j ∷ is) le h =
    elim (one_left (is_valid token now j) j i (filter_by (is_valid token now) is) h) [
      | inl both ↦
          head_marked token later at i.id j is (ap (λ k. k.id) both.0)
            (still_none token now later at i.id is le both.1)
      | inr later_one ↦
          head_invalid token now later at i.id j is le later_one.0
            (then_none token now later at i is le later_one.1)
    ]

-- What an accepted invitation has done.
pub record Joined (token now : ℕ) (u : User) (db db' : Db) : Type 0 where
  pub invitation : Invitation
  pub valid : filter_by (is_valid token now) db.invitations ≡ invitation ∷ []
  pub new_email : has_email invitation.email db.users ≡ false
  pub email : u.email ≡ invitation.email
  pub plain : u.is_super_admin ≡ false
  pub users : db'.users ≡ u ∷ db.users
  pub members :
      db'.members
      ≡ record {
        user_id = u.id;
        organization_id = invitation.organization_id;
        role = invitation.role;
      }
        ∷ db.members
  pub marked : db'.invitations ≡ mark_accepted now invitation.id db.invitations

abbrev new_user : Db → Invitation → User
new_user db i = record { id = db.fresh; email = i.email; is_super_admin = false; is_active = true }

abbrev after_join : ℕ → Db → Invitation → Db
after_join now db i = record {
  users = new_user db i ∷ db.users;
  members =
      record { user_id = db.fresh; organization_id = i.organization_id; role = i.role }
      ∷ db.members;
  invitations = mark_accepted now i.id db.invitations;
  fresh = suc db.fresh;
}

-- How a valid invitation ends, by whether its address has an account.
abbrev outcome : Bool → ℕ → Db → Invitation → Result User × Db
outcome has_account now db i =
    if has_account then (err (http 409), db) else (ok (new_user db i), after_join now db i)

joins :
    (token now : ℕ) (db : Db) (found : List Invitation) {u : User}
    → filter_by (is_valid token now) db.invitations ≡ found
    → (join now (one_or_none found) db).0 ≡ ok u
    → Joined token now u db (join now (one_or_none found) db).1
unfolding join
joins token now db [] e h = cc
joins token now db (i ∷ j ∷ is) e h = cc
joins token now db (i ∷ []) {u} e h = go (has_email i.email db.users) refl h
  where
    go :
        (b : Bool)
        → has_email i.email db.users ≡ b
        → (outcome b now db i).0 ≡ ok u
        → Joined token now u db (outcome b now db i).1
    go true q h = cc
    go false q h =
        subst (λ v. Joined token now v db (after_join now db i)) (ok-injective h)
          (record {
            invitation = i;
            valid = e;
            new_email = q;
            email = refl;
            plain = refl;
            users = refl;
            members = refl;
            marked = refl;
          })

-- An accepted invitation was the only valid one for its token, was sent to an address without an
-- account, and adds one plain user with the role and the organization that it names.
pub accept_invite-Joined :
    (now token : ℕ) (db : Db) {u : User}
    → (accept_invite now token db).0 ≡ ok u
    → Joined token now u db (accept_invite now token db).1
unfolding accept_invite get_valid_by_token_hash
accept_invite-Joined now token db h =
    joins token now db (filter_by (is_valid token now) db.invitations) refl h

-- After an invitation has been accepted, its token is refused with status 400 at any later time.
pub accept_invite_once :
    (now later token : ℕ) (db : Db) {u : User}
    → now ≤ later
    → (accept_invite now token db).0 ≡ ok u
    → let db' = (accept_invite now token db).1 in
      accept_invite later token db' ≡ (err (http 400), db')
unfolding accept_invite get_valid_by_token_hash join
accept_invite_once now later token db le h =
    let db' = (accept_invite now token db).1 in
    let j = accept_invite-Joined now token db h in
    let none_valid : filter_by (is_valid token later) db'.invitations ≡ [] =
      ap (filter_by (is_valid token later)) j.marked
      ∙ then_none token now later now j.invitation db.invitations le j.valid in
    ap (λ is. join later (one_or_none is) db') none_valid
