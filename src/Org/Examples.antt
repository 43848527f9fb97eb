-- ===== src/Org/Examples.antt =====
-- Concrete runs of backend/internal/org: an organisation with an owner, an admin and a member.
use nimbus_storage_platform.Base.{
  ℕ, ◌+◌, ◌≤◌, ◌≡◌, refl, ◌&&◌, Option, none, some, [], ◌∷◌, arith, ◌==◌, ltb, if◌then◌else◌,
}
use nimbus_storage_platform.Org.{
  Role, owner, admin, member, Member, Tables, ok, get_org, get_membership, add_member,
  delete_member, role_rank, add_member_by_email, check_removal, remove_member,
}
use nimbus_storage_platform.Org.Cache.{
  Request, membership_cache_ttl, cache_get, cache_set, require_role, after_requests, served_as,
  not_a_member, require_role-bounded,
}
use nimbus_storage_platform.Org.Roles.{IsOwned, remove_member-IsOwned}

abbrev row : ℕ → Role → Member
row user_id role = record { org_id = 7; user_id = user_id; role = role; created_at = 0 }

abbrev tables : Tables
tables = record {
  organizations =
      record { id = 7; name = 1; owner_user_id = 1; created_at = 0; quota_bytes_override = none }
      ∷ [];
  memberships = row 1 owner ∷ row 2 admin ∷ row 3 member ∷ [];
}

abbrev without_3 : Tables
without_3 = record tables { memberships = row 1 owner ∷ row 2 admin ∷ [] }

abbrev with_4 : Tables
with_4 = record tables {
  memberships =
      record { org_id = 7; user_id = 4; role = member; created_at = 9 } ∷ tables.memberships;
}

tables-IsOwned : IsOwned 7 tables
unfolding get_org
tables-IsOwned o h = ground arith

removed : remove_member 7 3 admin tables ≡ ok without_3
unfolding remove_member get_org check_removal get_membership delete_member
removed = refl

remove_member-IsOwned_example : IsOwned 7 without_3
remove_member-IsOwned_example =
    remove_member-IsOwned 7 3 admin tables without_3 7 removed tables-IsOwned

abbrev users : ℕ → Option ℕ
users email = if email == 44 then some 4 else none

invited : add_member_by_email users 9 7 44 member admin tables ≡ ok with_4
unfolding add_member_by_email add_member
invited = refl

-- User 3 is a member of organisation 7 until time 1000.
abbrev roles : ℕ → ℕ → ℕ → Option Member
roles t org_id user_id =
    if ltb t 1000 && org_id == 7 && user_id == 3 then some (row 3 member) else none

abbrev request : ℕ → Request
request now = record { now = now; org_id = 7; user_id = 3; min_role = member }

-- The entry of time 900 still lets the removed member in at time 5900, and no longer at 5901.
cached_5900 :
    (require_role roles (request 5900) (after_requests roles (request 900 ∷ []))).0
    ≡ served_as (row 3 member)
unfolding require_role after_requests cache_get cache_set role_rank
cached_5900 = refl

expired_5901 :
    (require_role roles (request 5901) (after_requests roles (request 900 ∷ []))).0 ≡ not_a_member
unfolding require_role after_requests cache_get cache_set role_rank
expired_5901 = refl

require_role-bounded_example :
    (role_rank member ≤ role_rank member)
    × (t : ℕ) × (t ≤ 5900)
    × (5900 ≤ t + membership_cache_ttl)
    × (roles t 7 3 ≡ some (row 3 member))
require_role-bounded_example =
    require_role-bounded roles (request 5900) (request 900 ∷ []) (row 3 member) (omega arith, tt)
      cached_5900
