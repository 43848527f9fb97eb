-- ===== src/Sharing/Examples.antt =====
-- Concrete runs of backend/internal/sharing: links to a file, to a folder and to a bundle.
use nimbus_storage_platform.Base.{
  ℕ, ◌≡◌, refl, true, false, ◌&&◌, none, some, [], ◌∷◌, ◌==◌, find?, pos,
}
use nimbus_storage_platform.Database.Actions.{ok, err}
use nimbus_storage_platform.Sharing.{
  ShareLink, FileInfo, Store, Ports, Fresh, scope, has_token, is_expired, get_by_token, live_link,
  covered, file_plan, resolve_download_plan, revoke, create_bundle_share, unique_ids, insert_bundle,
  insert_link, expired,
}
use nimbus_storage_platform.Sharing.Access.{Covers, resolve_download_plan-Covers}

abbrev info : ℕ → FileInfo
info id = record {
  id = id;
  name = 1;
  latest_version_id = some 70;
  size_bytes = pos 8;
  mime_type = 2;
  checksum = 3;
}

-- Every file is live, of organisation 7 and in folder 21, which lies in folder 20.
abbrev ports : Ports
ports = record {
  get_for_share = λ id. ok (info id);
  live_file_org = λ id. ok 7;
  live_file_folder = λ id. ok 21;
  get_folder_for_share = λ id. ok (record { id = id; name = 4 });
  list_share_children = λ id. ok ([], []);
  is_self_or_descendant = λ d at. ok (d == 20 && at == 21);
  download_plan = λ id v. ok (v ∷ []);
}

abbrev folder_link : ShareLink
folder_link = record {
  id = 1;
  org_id = 7;
  file_id = none;
  folder_id = some 20;
  token = 500;
  created_by = 1;
  expires_at = some 900;
  created_at = 100;
}

abbrev store : Store
store = record {
  links = folder_link ∷ [];
  members = [];
  files = 10 ∷ 11 ∷ [];
  folders = 20 ∷ 21 ∷ [];
  answers = true;
}

planned : resolve_download_plan ports 800 500 10 store ≡ ok (info 10, 70 ∷ [])
unfolding resolve_download_plan live_link get_by_token covered scope file_plan
planned = refl

resolve_download_plan-Covers_example :
    (l : ShareLink) × (find? (has_token 500) store.links ≡ some l)
    × (is_expired 800 l.expires_at ≡ false)
    × Covers ports store l (scope l) 10
    × (ports.get_for_share 10 ≡ ok (info 10))
    × (v : ℕ) × ((info 10).latest_version_id ≡ some v)
    × (ports.download_plan 10 v ≡ ok (70 ∷ []))
resolve_download_plan-Covers_example =
    resolve_download_plan-Covers ports 800 500 10 store (info 10) (70 ∷ []) planned

refused_after_expiry : resolve_download_plan ports 901 500 10 store ≡ err expired
unfolding resolve_download_plan live_link get_by_token
refused_after_expiry = refl

abbrev without_link : Store
without_link = record store { links = [] }

revoked_500 : revoke 500 store ≡ ok without_link
unfolding revoke
revoked_500 = refl

abbrev fresh : Fresh
fresh = record { id = 2; token = 501; now = 300 }

abbrev bundle_link : ShareLink
bundle_link = record {
  id = 2;
  org_id = 7;
  file_id = none;
  folder_id = none;
  token = 501;
  created_by = 1;
  expires_at = none;
  created_at = 300;
}

abbrev with_bundle : Store
with_bundle = record store {
  links = bundle_link ∷ folder_link ∷ [];
  members = record { share_id = 2; file_id = 10 } ∷ record { share_id = 2; file_id = 11 } ∷ [];
}

bundled :
    create_bundle_share ports fresh 7 (10 ∷ 0 ∷ 11 ∷ 10 ∷ []) 1 none store
    ≡ ok (bundle_link, with_bundle)
unfolding create_bundle_share unique_ids insert_bundle insert_link
bundled = refl
