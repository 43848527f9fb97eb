-- ===== src/Org.antt =====
-- backend/internal/org: organisations, memberships and their roles (types.go, repository.go,
-- service.go). An operation returns the tables it leaves; each makes at most one write, so an error
-- leaves them as they were, a failing database included. Identifiers and names are numbers.
pub mod Roles
pub mod Cache
pub mod Examples
use nimbus_storage_platform.Base.{
  ℕ, suc, ◌+◌, ◌≡◌, ℤ, Bool, true, false, not, ◌&&◌, ◌||◌, Option, none, some, List, [], ◌∷◌, map,
  if◌then◌else◌, ltb, ◌==◌, filter, any, find?,
}

pub data Role : Type 0 where
  owner admin member : Role

pub Role-discrete : Discrete Role
Role-discrete = hlevel

abbrev pub is_owner : Role → Bool
is_owner owner = true
is_owner admin = false
is_owner member = false

abbrev pub is_plain : Role → Bool
is_plain member = true
is_plain admin = false
is_plain owner = false

unfoldable pub role_rank : Role → ℕ
role_rank owner = 3
role_rank admin = 2
role_rank member = 1

pub record Organization : Type 0 where
  pub id : ℕ
  pub name : ℕ
  pub owner_user_id : ℕ
  pub created_at : ℕ
  pub quota_bytes_override : Option ℤ

pub record Member : Type 0 where
  pub org_id : ℕ
  pub user_id : ℕ
  pub role : Role
  pub created_at : ℕ

pub record Tables : Type 0 where
  pub organizations : List Organization
  pub memberships : List Member

pub data OrgError : Type 0 where
  not_member already_member cannot_remove_owner target_user_not_found not_found : OrgError
  elevated_role_needs_owner admin_removes_members_only : OrgError

pub data Result (A : Type 0) : Type 0 where
  ok : A → Result A
  err : OrgError → Result A

abbrev pub of_option : {A : Type 0} → Option A → OrgError → Result A
of_option none e = err e
of_option (some a) e = ok a

infixl 5 ◌>>=◌ ◌>>◌
abbrev pub ◌>>=◌ : {A B : Type 0} → Result A → (A → Result B) → Result B
err failure >>= next = err failure
ok found >>= next = next found

abbrev pub ◌>>◌ : {B : Type 0} → Result (Unit {0}) → Result B → Result B
m >> k = m >>= λ _. k

abbrev pub reject_if : Bool → OrgError → Result (Unit {0})
reject_if true e = err e
reject_if false e = ok tt

abbrev pub is_membership : ℕ → ℕ → Member → Bool
is_membership org_id user_id m = m.org_id == org_id && m.user_id == user_id

-- `GetOrg`: no row is an error of the driver, and so an error here.
unfoldable pub get_org : ℕ → Tables → Result Organization
get_org org_id t =
    of_option (find? (λ (o : Organization). o.id == org_id) t.organizations) not_found

unfoldable pub get_membership : ℕ → ℕ → Tables → Result Member
get_membership org_id user_id t =
    of_option (find? (is_membership org_id user_id) t.memberships) not_member

-- `CreateWithOwner`: both rows in one transaction, under a fresh identifier.
unfoldable pub create_with_owner : ℕ → ℕ → ℕ → ℕ → Tables → Tables
create_with_owner id now name owner_user_id t = record {
  organizations =
      record {
        id = id;
        name = name;
        owner_user_id = owner_user_id;
        created_at = now;
        quota_bytes_override = none;
      }
      ∷ t.organizations;
  memberships =
      record { org_id = id; user_id = owner_user_id; role = owner; created_at = now }
      ∷ t.memberships;
}

-- `AddMember`: the primary key (org_id, user_id) refuses a second row.
unfoldable pub add_member : ℕ → ℕ → ℕ → Role → Tables → Result Tables
add_member now org_id user_id role t = do
  reject_if (any (is_membership org_id user_id) t.memberships) already_member
  ok (record t {
    memberships =
        record { org_id = org_id; user_id = user_id; role = role; created_at = now }
        ∷ t.memberships;
  })

-- `RemoveMember` of the repository.
unfoldable pub delete_member : ℕ → ℕ → Tables → Tables
delete_member org_id user_id t = record t {
  memberships = filter (λ m. not (is_membership org_id user_id m)) t.memberships;
}

-- `AddMemberByEmail`; `users` looks an e-mail address up.
unfoldable pub add_member_by_email :
    (ℕ → Option ℕ) → ℕ → ℕ → ℕ → Role → Role → Tables → Result Tables
add_member_by_email users now org_id email role caller_role t = do
  reject_if (not (is_owner caller_role) && not (is_plain role)) elevated_role_needs_owner
  user_id ← of_option (users email) target_user_not_found
  add_member now org_id user_id role t

-- The bound on a caller who is not the owner: the target is a plain member.
unfoldable pub check_removal : ℕ → ℕ → Role → Tables → Result (Unit {0})
check_removal org_id user_id caller_role t =
    if is_owner caller_role
    then ok tt
    else get_membership org_id user_id t >>= λ target.
        reject_if (not (is_plain target.role)) admin_removes_members_only

-- `RemoveMember` of the service.
unfoldable pub remove_member : ℕ → ℕ → Role → Tables → Result Tables
remove_member org_id user_id caller_role t = do
  o ← get_org org_id t
  reject_if (o.owner_user_id == user_id) cannot_remove_owner
  check_removal org_id user_id caller_role t
  ok (delete_member org_id user_id t)

-- `QuotaOverride` and `EffectiveQuota`.
unfoldable pub quota_override : ℕ → Tables → Result (Option ℤ)
quota_override org_id t = get_org org_id t >>= λ o. ok o.quota_bytes_override

unfoldable pub effective_quota : ℤ → ℕ → Tables → Result ℤ
effective_quota quota_bytes org_id t =
    quota_override org_id t >>= λ o. ok (elim o [ none ↦ quota_bytes | some override ↦ override ])

-- `SetQuotaOverride`: an UPDATE that must affect a row.
unfoldable pub set_quota : ℕ → Option ℤ → Tables → Result Tables
set_quota org_id quota_bytes t = do
  reject_if (not (any (λ (o : Organization). o.id == org_id) t.organizations)) not_found
  ok (record t {
    organizations =
        map
          (λ (o : Organization).
            if o.id == org_id then record o { quota_bytes_override = quota_bytes } else o)
          t.organizations;
  })
