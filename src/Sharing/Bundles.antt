-- ===== src/Sharing/Bundles.antt =====
-- `CreateBundleShare` of backend/internal/sharing/service.go: what the link that it makes covers.
use nimbus_storage_platform.Base.{
  ℕ, ◌≡◌, refl, sym, ap, ap₂, ◌∙◌, Bool, true, false, not, ◌&&◌, ◌||◌, Option, List, [], ◌∷◌, arith,
  ◌==◌, any, all, if◌then◌else◌, Bool-cases, inl, inr, mem, length, any-append,
}
use nimbus_storage_platform.Database.{empty}
use nimbus_storage_platform.Database.Actions.{ok, err}
use nimbus_storage_platform.Sharing.{
  Answer, ShareLink, BundleFile, Fresh, Store, Ports, scope, is_row, get_by_token, covered,
  is_bundle_member, is_shareable, unique_ids, rows_of, create_bundle_share, empty_bundle, add_link,
  no_repeats, create_file_share, insert_bundle, insert_link,
}

-- The loop keeps the IDs that are not empty and not seen.
mem-unique_ids :
    (x : ℕ) (seen ids : List ℕ)
    → mem x (unique_ids seen ids) ≡ (not (x == empty) && not (mem x seen) && mem x ids)
unfolding unique_ids
mem-unique_ids x seen [] = ground arith
mem-unique_ids x seen (id ∷ ids) =
    ground (arith, mem-unique_ids x seen ids, mem-unique_ids x (id ∷ seen) ids)

unique_ids-requested :
    (x : ℕ) (ids : List ℕ) → mem x (unique_ids [] ids) ≡ (not (x == empty) && mem x ids)
unique_ids-requested x ids = ground (arith, mem-unique_ids x [] ids)

any-rows_of :
    (share_id file_id : ℕ) (fs : List ℕ)
    → any (is_row share_id file_id) (rows_of share_id fs) ≡ mem file_id fs
any-rows_of share_id file_id [] = refl
any-rows_of share_id file_id (f ∷ fs) = ground (arith, any-rows_of share_id file_id fs)

any-is_row_fresh :
    (share_id file_id : ℕ) (ms : List BundleFile)
    → any (λ m. m.share_id == share_id) ms ≡ false
    → any (is_row share_id file_id) ms ≡ false
any-is_row_fresh share_id file_id [] h = refl
any-is_row_fresh share_id file_id (m ∷ ms) h = ground (arith, any-is_row_fresh share_id file_id ms)

all-mem : (p : ℕ → Bool) (x : ℕ) (xs : List ℕ) → all p xs ≡ true → mem x xs ≡ true → p x ≡ true
all-mem p x [] a m = cc
all-mem p x (y ∷ ys) a m = elim (Bool-cases (y == x)) [
  | inl same ↦ let e : y ≡ x = ground arith in ap p (sym e) ∙ ground arith
  | inr other ↦ all-mem p x ys (ground arith) (ground arith)
]

is_shareable-ok : (org_id : ℕ) (a : Answer ℕ) → is_shareable org_id a ≡ true → a ≡ ok org_id
is_shareable-ok org_id a h = ground arith

or-false : (b : Bool) → (b || false) ≡ b
or-false b = ground arith

insert_link-ok :
    (row : ShareLink) (rows : List BundleFile) (refers : Bool) (s : Store) {l : ShareLink}
    {s' : Store}
    → insert_link row rows refers s ≡ ok (l, s')
    → (l ≡ row) × (s' ≡ add_link row rows s) × (s.answers ≡ true)
unfolding insert_link
insert_link-ok row rows refers s h = ground arith

get_by_token-add_link :
    (row : ShareLink) (rows : List BundleFile) (s : Store)
    → s.answers ≡ true
    → get_by_token row.token (add_link row rows s) ≡ ok row
unfolding get_by_token
get_by_token-add_link row rows s up = ground arith

-- What a bundle request leaves: the link under its token, covering the IDs of `fs`.
abbrev Made : Ports → Fresh → Store → ShareLink → (ℕ → Bool) → Type 0
Made ports fresh s l requested =
    (get_by_token fresh.token s ≡ ok l) × ((id : ℕ) → covered ports l id s ≡ ok (requested id))

module _ (ports : Ports) (fresh : Fresh) (org_id created_by : ℕ) (expires_at : Option ℕ)
    (s : Store) where
  create_file_share-Made :
      (f : ℕ) {l : ShareLink} {s' : Store}
      → create_file_share fresh org_id f created_by expires_at s ≡ ok (l, s')
      → Made ports fresh s' l (λ id. f == id)
  unfolding create_file_share covered scope
  create_file_share-Made f h =
      let (link, store, up) = insert_link-ok _ [] (mem f s.files) s h in
      rw (link, store) (get_by_token-add_link _ [] s up, λ id. refl)

  insert_bundle-Made :
      (fs : List ℕ) {l : ShareLink} {s' : Store}
      → any (λ m. m.share_id == fresh.id) s.members ≡ false
      → insert_bundle fresh org_id fs created_by expires_at s ≡ ok (l, s')
      → Made ports fresh s' l (λ id. mem id fs)
  unfolding insert_bundle covered scope is_bundle_member
  insert_bundle-Made fs new h =
      let rows = rows_of fresh.id fs in
      let (link, store, up) =
        insert_link-ok _ rows (all (λ f. mem f s.files) fs && no_repeats fs) s h in
      rw (link, store)
        (
          get_by_token-add_link _ rows s up,
          λ id. rw up (
              ap ok (
                any-append (is_row fresh.id id) rows s.members
                ∙ ap₂ ◌||◌ (any-rows_of fresh.id id fs) (any-is_row_fresh fresh.id id s.members new)
                ∙ or-false (mem id fs))),
        )

  of_unique :
      (unique ids : List ℕ) {l : ShareLink} {s' : Store}
      → ((id : ℕ) → mem id unique ≡ (not (id == empty) && mem id ids))
      → any (λ m. m.share_id == fresh.id) s.members ≡ false
      → elim unique [
        | [] ↦ err empty_bundle
        | f ∷ fs ↦
            if length fs == 0
            then create_file_share fresh org_id f created_by expires_at s
            else insert_bundle fresh org_id (f ∷ fs) created_by expires_at s
      ]
        ≡ ok (l, s')
      → Made ports fresh s' l (λ id. not (id == empty) && mem id ids)
  of_unique [] ids same new h = cc
  of_unique (f ∷ []) ids same new h =
      let (found, covers) = create_file_share-Made f h in
      (found, λ id. covers id ∙ ap ok (sym (or-false (f == id)) ∙ same id))
  of_unique (f ∷ g ∷ gs) ids same new h =
      let two : (length (g ∷ gs) == 0) ≡ false = ground arith in
      let (found, covers) = insert_bundle-Made (f ∷ g ∷ gs) new (rw two at h) in
      (found, λ id. covers id ∙ ap ok (same id))

  -- A bundle link is made only of live files of the caller's organisation, and covers exactly the
  -- requested IDs, the empty one left out: also where one file remains and a plain file link is made.
  -- The link is found under its token. (Its identifier is new.)
  pub create_bundle_share-covered :
      (file_ids : List ℕ) {l : ShareLink} {s' : Store}
      → any (λ m. m.share_id == fresh.id) s.members ≡ false
      → create_bundle_share ports fresh org_id file_ids created_by expires_at s ≡ ok (l, s')
      → (get_by_token fresh.token s' ≡ ok l)
        × ((id : ℕ) → covered ports l id s' ≡ ok (not (id == empty) && mem id file_ids))
        × ((id : ℕ)
            → (not (id == empty) && mem id file_ids) ≡ true
            → ports.live_file_org id ≡ ok org_id)
  unfolding create_bundle_share
  create_bundle_share-covered file_ids new h =
      let unique = unique_ids [] file_ids in
      let same = λ (id : ℕ). unique_ids-requested id file_ids in
      let shareable = λ (f : ℕ). is_shareable org_id (ports.live_file_org f) in
      elim (Bool-cases (length unique == 0)) [
        | inl none_left ↦ cc (rw none_left at h)
        | inr some_left ↦ elim (Bool-cases (all shareable unique)) [
          | inr refused ↦ cc (rw (some_left, refused) at h)
          | inl allowed ↦
              let made = of_unique unique file_ids same new (rw (some_left, allowed) at h) in
              (
                made.0,
                made.1,
                λ id m.
                    is_shareable-ok org_id (ports.live_file_org id)
                      (all-mem shareable id unique allowed (same id ∙ m)),
              )
        ]
      ]
