-- ===== src/Sharing.antt =====
-- backend/internal/sharing: share links and what they give access to (types.go, repository.go,
-- service.go). The ports on files and folders are the fields of `Ports`; a failing port, like a
-- failing database, is `database_error`, and within one operation the database answers every call or
-- none. Identifiers, tokens and names are numbers, 0 being the empty string. The identifier, the token and
-- the time of a new link are arguments.
pub mod Access
pub mod Bundles
pub mod Examples
use nimbus_storage_platform.Base.{
  ℕ, ◌≡◌, Bool, true, false, not, ◌&&◌, ◌||◌, Option, none, some, List, [], ◌∷◌, ◌++◌, map, ℤ,
  if◌then◌else◌, ltb, ◌==◌, length, filter, any, all, find?, mem,
}
use nimbus_storage_platform.Database.{empty}
use nimbus_storage_platform.Database.Actions.{Result, ok, err, database_error}
use nimbus_storage_platform.Database.Results.{◌>>=◌, or_else}

pub record ShareLink : Type 0 where
  pub id : ℕ
  pub org_id : ℕ
  pub file_id : Option ℕ
  pub folder_id : Option ℕ
  pub token : ℕ
  pub created_by : ℕ
  pub expires_at : Option ℕ
  pub created_at : ℕ

pub record FileInfo : Type 0 where
  pub id : ℕ
  pub name : ℕ
  pub latest_version_id : Option ℕ
  pub size_bytes : ℤ
  pub mime_type : ℕ
  pub checksum : ℕ

pub record FolderInfo : Type 0 where
  pub id : ℕ
  pub name : ℕ

-- A row of share_link_files.
pub record BundleFile : Type 0 where
  pub share_id : ℕ
  pub file_id : ℕ

pub data ShareError : Type 0 where
  not_found expired file_has_no_version not_in_share empty_bundle file_not_shareable : ShareError

abbrev pub Answer : Type 0 → Type 0
Answer A = Result ShareError A

-- `files` and `folders` are the rows that foreign keys refer to.
pub record Store : Type 0 where
  pub links : List ShareLink
  pub members : List BundleFile
  pub files : List ℕ
  pub folders : List ℕ
  pub answers : Bool

pub record Ports : Type 0 where
  pub get_for_share : ℕ → Answer FileInfo
  pub live_file_org : ℕ → Answer ℕ
  pub live_file_folder : ℕ → Answer ℕ
  pub get_folder_for_share : ℕ → Answer FolderInfo
  pub list_share_children : ℕ → Answer (List FolderInfo × List FileInfo)
  pub is_self_or_descendant : ℕ → ℕ → Answer Bool
  pub download_plan : ℕ → ℕ → Answer (List ℕ)

-- What a new link is given from outside: its identifier, its token and the time.
pub record Fresh : Type 0 where
  pub id : ℕ
  pub token : ℕ
  pub now : ℕ

-- `ShareKind`, with the reference that the kind promises.
pub data Scope : Type 0 where
  file_scope folder_scope : ℕ → Scope
  bundle_scope : Scope

-- `Kind`: derived from which reference the row carries.
unfoldable pub scope : ShareLink → Scope
scope l = elim l.file_id [
  | some f ↦ file_scope f
  | none ↦ elim l.folder_id [ some d ↦ folder_scope d | none ↦ bundle_scope ]
]

abbrev pub query : {A : Type 0} → Store → A → Answer A
query s a = if s.answers then ok a else database_error

abbrev pub has_token : ℕ → ShareLink → Bool
has_token token l = l.token == token

abbrev pub add_link : ShareLink → List BundleFile → Store → Store
add_link l rows s = record s { links = l ∷ s.links; members = rows ++ s.members }

-- An INSERT of a link, under the unique token and the foreign keys.
unfoldable pub insert_link : ShareLink → List BundleFile → Bool → Store → Answer (ShareLink × Store)
insert_link l rows refers s =
    if s.answers && refers && not (any (has_token l.token) s.links)
    then ok (l, add_link l rows s)
    else database_error

unfoldable pub create_file_share : Fresh → ℕ → ℕ → ℕ → Option ℕ → Store → Answer (ShareLink × Store)
create_file_share fresh org_id file_id created_by expires_at s =
    insert_link
      (record {
        id = fresh.id;
        org_id = org_id;
        file_id = some file_id;
        folder_id = none;
        token = fresh.token;
        created_by = created_by;
        expires_at = expires_at;
        created_at = fresh.now;
      })
      [] (mem file_id s.files) s

unfoldable pub create_folder_share :
    Fresh → ℕ → ℕ → ℕ → Option ℕ → Store → Answer (ShareLink × Store)
create_folder_share fresh org_id folder_id created_by expires_at s =
    insert_link
      (record {
        id = fresh.id;
        org_id = org_id;
        file_id = none;
        folder_id = some folder_id;
        token = fresh.token;
        created_by = created_by;
        expires_at = expires_at;
        created_at = fresh.now;
      })
      [] (mem folder_id s.folders) s

-- No file stands twice: the primary key of share_link_files.
abbrev pub no_repeats : List ℕ → Bool
no_repeats [] = true
no_repeats (x ∷ xs) = not (mem x xs) && no_repeats xs

abbrev pub rows_of : ℕ → List ℕ → List BundleFile
rows_of share_id = map (λ f. record { share_id = share_id; file_id = f })

-- `CreateBundleShare` of the repository: link and rows in one transaction.
unfoldable pub insert_bundle :
    Fresh → ℕ → List ℕ → ℕ → Option ℕ → Store → Answer (ShareLink × Store)
insert_bundle fresh org_id file_ids created_by expires_at s =
    insert_link
      (record {
        id = fresh.id;
        org_id = org_id;
        file_id = none;
        folder_id = none;
        token = fresh.token;
        created_by = created_by;
        expires_at = expires_at;
        created_at = fresh.now;
      })
      (rows_of fresh.id file_ids) (all (λ f. mem f s.files) file_ids && no_repeats file_ids) s

unfoldable pub get_by_token : ℕ → Store → Answer ShareLink
get_by_token token s = query s (find? (has_token token) s.links) >>= λ row. elim row [
  | some l ↦ ok l
  | none ↦ err not_found
]

-- `Delete`, whose member rows cascade.
unfoldable pub revoke : ℕ → Store → Answer Store
revoke token s = query s (record s {
  links = filter (λ l. not (has_token token l)) s.links;
  members =
      filter (λ m. not (any (λ (l : ShareLink). l.id == m.share_id && has_token token l) s.links))
        s.members;
})

unfoldable pub bundle_file_ids : ℕ → Store → Answer (List ℕ)
bundle_file_ids share_id s =
    query s (map (λ m. m.file_id) (filter (λ m. m.share_id == share_id) s.members))

abbrev pub is_row : ℕ → ℕ → BundleFile → Bool
is_row share_id file_id m = m.share_id == share_id && m.file_id == file_id

unfoldable pub is_bundle_member : ℕ → ℕ → Store → Answer Bool
is_bundle_member share_id file_id s = query s (any (is_row share_id file_id) s.members)

-- The loop that drops empty and repeated file IDs.
unfoldable pub unique_ids : List ℕ → List ℕ → List ℕ
unique_ids seen [] = []
unique_ids seen (id ∷ ids) =
    let kept = unique_ids (id ∷ seen) ids in
    let skipped = unique_ids seen ids in if id == empty || mem id seen then skipped else id ∷ kept

abbrev pub is_expired : ℕ → Option ℕ → Bool
is_expired now none = false
is_expired now (some t) = ltb t now

unfoldable pub live_link : ℕ → ℕ → Store → Answer ShareLink
live_link now token s =
    get_by_token token s >>= λ l. if is_expired now l.expires_at then err expired else ok l

pub data ResolvedShare : Type 0 where
  file_share : FileInfo → List ℕ → ResolvedShare
  folder_share : FolderInfo → List FolderInfo → List FileInfo → ResolvedShare
  bundle_share : List FileInfo → ResolvedShare

abbrev pub is_shareable : ℕ → Answer ℕ → Bool
is_shareable org_id (ok org) = org == org_id
is_shareable org_id (err _) = false
is_shareable org_id database_error = false

-- The files of a bundle that can still be served.
abbrev pub keep_ok : Answer FileInfo → List FileInfo → List FileInfo
keep_ok (ok info) rest = info ∷ rest
keep_ok (err _) rest = rest
keep_ok database_error rest = rest

module _ (ports : Ports) where
  unfoldable pub create_bundle_share :
      Fresh → ℕ → List ℕ → ℕ → Option ℕ → Store → Answer (ShareLink × Store)
  create_bundle_share fresh org_id file_ids created_by expires_at s =
      let unique = unique_ids [] file_ids in
      if length unique == 0
      then err empty_bundle
      else if not (all (λ f. is_shareable org_id (ports.live_file_org f)) unique)
      then err file_not_shareable
      else elim unique [
        | [] ↦ err empty_bundle
        | f ∷ fs ↦
            if length fs == 0
            then create_file_share fresh org_id f created_by expires_at s
            else insert_bundle fresh org_id (f ∷ fs) created_by expires_at s
      ]

  unfoldable pub file_plan : ℕ → Answer (FileInfo × List ℕ)
  file_plan file_id = ports.get_for_share file_id >>= λ info. elim info.latest_version_id [
    | none ↦ err file_has_no_version
    | some version_id ↦ ports.download_plan info.id version_id >>= λ plan. ok (info, plan)
  ]

  unfoldable pub folder_listing : ℕ → Answer (FolderInfo × List FolderInfo × List FileInfo)
  folder_listing folder_id = do
    info ← or_else (ports.get_folder_for_share folder_id) not_found
    children ← ports.list_share_children folder_id
    ok (info, children.0, children.1)

  unfoldable pub bundle_infos : List ℕ → List FileInfo
  bundle_infos [] = []
  bundle_infos (f ∷ fs) = keep_ok (ports.get_for_share f) (bundle_infos fs)

  -- `Resolve`.
  unfoldable pub resolve : ℕ → ℕ → Store → Answer ResolvedShare
  resolve now token s = live_link now token s >>= λ l. elim (scope l) [
    | file_scope f ↦ file_plan f >>= λ r. ok (file_share r.0 r.1)
    | folder_scope d ↦ folder_listing d >>= λ r. ok (folder_share r.0 r.1 r.2)
    | bundle_scope ↦ bundle_file_ids l.id s >>= λ ids. ok (bundle_share (bundle_infos ids))
  ]

  unfoldable pub resolve_folder_children :
      ℕ → ℕ → ℕ → Store → Answer (FolderInfo × List FolderInfo × List FileInfo)
  resolve_folder_children now token folder_id s = live_link now token s >>= λ l. elim (scope l) [
    | file_scope _ ↦ err not_in_share
    | bundle_scope ↦ err not_in_share
    | folder_scope d ↦ ports.is_self_or_descendant d folder_id >>= λ inside.
        if inside then folder_listing folder_id else err not_in_share
  ]

  -- Whether the link's scope covers the file.
  unfoldable pub covered : ShareLink → ℕ → Store → Answer Bool
  covered l file_id s = elim (scope l) [
    | file_scope f ↦ ok (f == file_id)
    | bundle_scope ↦ is_bundle_member l.id file_id s
    | folder_scope d ↦ or_else (ports.live_file_folder file_id) not_in_share >>= λ at.
        ports.is_self_or_descendant d at
  ]

  unfoldable pub resolve_download_plan : ℕ → ℕ → ℕ → Store → Answer (FileInfo × List ℕ)
  resolve_download_plan now token file_id s = do
    l ← live_link now token s
    inside ← covered l file_id s
    if inside then file_plan file_id else err not_in_share
