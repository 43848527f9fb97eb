-- ===== src/Org/Roles.antt =====
-- The governance rules of backend/internal/org/service.go: owners and elevated roles under removals
-- and invitations.
use nimbus_storage_platform.Base.{
  ℕ, ◌≡◌, refl, ap, ap₂, sym, ◌∙◌, Bool, true, false, not, ◌&&◌, Option, some, List, [], ◌∷◌, ◌==◌,
  filter, any, find?, arith, Bool-cases, inl, inr,
}
use nimbus_storage_platform.Org.{
  Role, is_owner, is_plain, Organization, Member, Tables, OrgError, Result, ok, err, ◌>>=◌, ◌>>◌,
  cannot_remove_owner, get_org, get_membership, add_member, delete_member, add_member_by_email,
  check_removal, remove_member, is_membership, reject_if,
}

abbrev pub owns : ℕ → ℕ → Member → Bool
owns org_id user_id m = is_membership org_id user_id m && is_owner m.role

-- The organisation's recorded owner has a membership with the owner role.
abbrev pub IsOwned : ℕ → Tables → Type 0
IsOwned org_id t =
    (o : Organization)
    → get_org org_id t ≡ ok o
    → any (owns org_id o.owner_user_id) t.memberships ≡ true

any-delete :
    (org_id user_id other : ℕ) (ms : List Member)
    → (other == user_id) ≡ false
    → any (owns org_id other) (filter (λ m. not (is_membership org_id user_id m)) ms)
      ≡ any (owns org_id other) ms
any-delete org_id user_id other [] h = refl
any-delete org_id user_id other (m ∷ ms) h = ground (arith, any-delete org_id user_id other ms h)

any-delete_other :
    (org_id user_id id other : ℕ) (ms : List Member)
    → (id == org_id) ≡ false
    → any (owns id other) (filter (λ m. not (is_membership org_id user_id m)) ms)
      ≡ any (owns id other) ms
any-delete_other org_id user_id id other [] h = refl
any-delete_other org_id user_id id other (m ∷ ms) h =
    ground (arith, any-delete_other org_id user_id id other ms h)

get_org-delete :
    (org_id user_id id : ℕ) (t : Tables)
    → get_org id (delete_member org_id user_id t) ≡ get_org id t
unfolding get_org delete_member
get_org-delete org_id user_id id t = refl

eq_of_test : (m n : ℕ) → (m == n) ≡ true → m ≡ n
eq_of_test m n h = ground arith

-- A successful chain went through its first part.
>>=-ok :
    {A B : Type 0} (first : Result A) (next : A → Result B) {b : B}
    → first >>= next ≡ ok b
    → (found : A) × (first ≡ ok found) × (next found ≡ ok b)
>>=-ok (err failure) next h = cc
>>=-ok (ok found) next h = (found, refl, h)

reject_if-ok :
    {B : Type 0} (c : Bool) (e : OrgError) (k : Result B) {b : B}
    → (reject_if c e >> k) ≡ ok b
    → (c ≡ false) × (k ≡ ok b)
reject_if-ok true e k h = cc
reject_if-ok false e k h = (refl, h)

ok-injective : {A : Type 0} {a b : A} → ok a ≡ ok b → a ≡ b
ok-injective h = cc

-- What a successful removal checked, and the tables it leaves.
record Removal (org_id user_id : ℕ) (caller_role : Role) (t t' : Tables) : Type 0 where
  target_not_owner :
      (o : Organization) → get_org org_id t ≡ ok o → (o.owner_user_id == user_id) ≡ false
  permitted : check_removal org_id user_id caller_role t ≡ ok tt
  deleted : t' ≡ delete_member org_id user_id t

remove_member-Removal :
    (org_id user_id : ℕ) (caller_role : Role) (t t' : Tables)
    → remove_member org_id user_id caller_role t ≡ ok t'
    → Removal org_id user_id caller_role t t'
unfolding remove_member
remove_member-Removal org_id user_id caller_role t t' h =
    let (o, found, rest) = >>=-ok (get_org org_id t) _ h in
    let (other, rest') = reject_if-ok (o.owner_user_id == user_id) cannot_remove_owner _ rest in
    let (u, permitted, last) = >>=-ok (check_removal org_id user_id caller_role t) _ rest' in
    record {
      target_not_owner = λ o' found'.
          ap (λ (x : Organization). x.owner_user_id == user_id) (ok-injective (sym found' ∙ found))
          ∙ other;
      permitted = permitted;
      deleted = sym (ok-injective last);
    }

-- No removal, whoever asks for it, leaves any organisation without its owner's membership.
pub remove_member-IsOwned :
    (org_id user_id : ℕ) (caller_role : Role) (t t' : Tables) (id : ℕ)
    → remove_member org_id user_id caller_role t ≡ ok t'
    → IsOwned id t
    → IsOwned id t'
unfolding delete_member
remove_member-IsOwned org_id user_id caller_role t t' id h owned o found =
    let r = remove_member-Removal org_id user_id caller_role t t' h in
    let found_before =
      sym (get_org-delete org_id user_id id t) ∙ ap (get_org id) (sym r.deleted) ∙ found in
    let still = owned o found_before in
    rw r.deleted (elim (Bool-cases (id == org_id)) [
      | inl same ↦
          let same' = eq_of_test id org_id same in
          rw same' (
            any-delete org_id user_id o.owner_user_id t.memberships
              (r.target_not_owner o (ap (λ i. get_org i t) (sym same') ∙ found_before))
            ∙ ap (λ i. any (owns i o.owner_user_id) t.memberships) (sym same')
            ∙ still)
      | inr other ↦ any-delete_other org_id user_id id o.owner_user_id t.memberships other ∙ still
    ])

-- The primary key (org_id, user_id): no two rows share it.
abbrev pub IsUnique : List Member → Type 0
IsUnique [] = Unit
IsUnique (m ∷ ms) = (any (is_membership m.org_id m.user_id) ms ≡ false) × IsUnique ms

-- The memberships with an elevated role, in order.
abbrev pub elevated : List Member → List Member
elevated = filter (λ m. not (is_plain m.role))

delete-absent :
    (org_id user_id : ℕ) (ms : List Member)
    → any (is_membership org_id user_id) ms ≡ false
    → filter (λ m. not (is_membership org_id user_id m)) ms ≡ ms
delete-absent org_id user_id [] h = refl
delete-absent org_id user_id (m ∷ ms) h = ground (arith, delete-absent org_id user_id ms)

absent-key :
    (org_id user_id : ℕ) (m : Member) (ms : List Member)
    → is_membership org_id user_id m ≡ true
    → any (is_membership m.org_id m.user_id) ms ≡ false
    → any (is_membership org_id user_id) ms ≡ false
absent-key org_id user_id m ms here u =
    let o = eq_of_test m.org_id org_id (ground arith) in
    let v = eq_of_test m.user_id user_id (ground arith) in
    ap₂ (λ i j. any (is_membership i j) ms) (sym o) (sym v) ∙ u

found-here :
    (org_id user_id : ℕ) (target m : Member) (ms : List Member)
    → is_membership org_id user_id m ≡ true
    → find? (is_membership org_id user_id) (m ∷ ms) ≡ some target
    → m ≡ target
found-here org_id user_id target m ms here h = ground arith

found-there :
    (org_id user_id : ℕ) (target m : Member) (ms : List Member)
    → is_membership org_id user_id m ≡ false
    → find? (is_membership org_id user_id) (m ∷ ms) ≡ some target
    → find? (is_membership org_id user_id) ms ≡ some target
found-there org_id user_id target m ms there h = ground arith

elevated-cons :
    (m : Member) (xs ys : List Member)
    → elevated xs ≡ elevated ys
    → elevated (m ∷ xs) ≡ elevated (m ∷ ys)
elevated-cons m xs ys h = rw h refl

elevated-delete :
    (org_id user_id : ℕ) (target : Member) (ms : List Member)
    → IsUnique ms
    → find? (is_membership org_id user_id) ms ≡ some target
    → is_plain target.role ≡ true
    → elevated (filter (λ m. not (is_membership org_id user_id m)) ms) ≡ elevated ms
elevated-delete org_id user_id target [] u h p = refl
elevated-delete org_id user_id target (m ∷ ms) u h p =
    elim (Bool-cases (is_membership org_id user_id m)) [
      | inl here ↦
          let absent = absent-key org_id user_id m ms here u.0 in
          let first = found-here org_id user_id target m ms here h in
          let plain = ap (λ (x : Member). is_plain x.role) first ∙ p in
          rw (here, plain, delete-absent org_id user_id ms absent) refl
      | inr there ↦
          let ih =
            elevated-delete org_id user_id target ms u.1
              (found-there org_id user_id target m ms there h) p in
          rw there (elevated-cons m (filter (λ m'. not (is_membership org_id user_id m')) ms) ms ih)
    ]

check_removal-plain :
    (org_id user_id : ℕ) (caller_role : Role) (t : Tables)
    → is_owner caller_role ≡ false
    → check_removal org_id user_id caller_role t ≡ ok tt
    → (target : Member) × (find? (is_membership org_id user_id) t.memberships ≡ some target)
      × (is_plain target.role ≡ true)
unfolding check_removal get_membership
check_removal-plain org_id user_id caller_role t c h = ground arith

-- An admin or a plain member as the caller: no successful removal changes who holds an elevated
-- role in any organisation, where no two rows share their primary key.
pub remove_member-elevated :
    (org_id user_id : ℕ) (caller_role : Role) (t t' : Tables)
    → is_owner caller_role ≡ false
    → IsUnique t.memberships
    → remove_member org_id user_id caller_role t ≡ ok t'
    → elevated t'.memberships ≡ elevated t.memberships
unfolding delete_member
remove_member-elevated org_id user_id caller_role t t' c u h =
    let r = remove_member-Removal org_id user_id caller_role t t' h in
    let (target, found, plain) = check_removal-plain org_id user_id caller_role t c r.permitted in
    rw r.deleted (elevated-delete org_id user_id target t.memberships u found plain)

-- An admin or a plain member as the caller: no successful invitation changes who holds an elevated
-- role in any organisation.
pub add_member_by_email-elevated :
    (users : ℕ → Option ℕ) (now org_id email : ℕ) (role caller_role : Role) (t t' : Tables)
    → is_owner caller_role ≡ false
    → add_member_by_email users now org_id email role caller_role t ≡ ok t'
    → elevated t'.memberships ≡ elevated t.memberships
unfolding add_member_by_email add_member
add_member_by_email-elevated users now org_id email role caller_role t t' c h = ground arith
