-- ===== src/Upload/Possession.antt =====
-- What a commit of backend/internal/upload/service.go lets an organisation claim later, and what it
-- does not; and the commits that are refused.
use nimbus_storage_platform.Base.{
  ℕ, ◌≡◌, ◌≢◌, ap, ◌∙◌, ◌⊎◌, inl, inr, ℤ, true, List, [], ◌∷◌, arith, any,
}
use nimbus_storage_platform.Database.{Upload, UploadChunk, OrgChunkProof}
use nimbus_storage_platform.Database.Actions.{World, ok, err, ◌>>=◌, >>=-err, query, exec, call}
use nimbus_storage_platform.Storage.Ring.{NodeId}
use nimbus_storage_platform.Upload.Repository.{
  UploadError, is_awaiting, commit_attempt, mark_chunk_committed, upsert_global_chunk,
  upsert_chunk_location, insert_proof, is_proof, record_org_chunk_proof, get_chunk_attempt_state,
  in_session,
}
use nimbus_storage_platform.Upload.Service.{
  Ports, Config, record_locations, check_commit, write_commit, commit_chunk,
}
use nimbus_storage_platform.Upload.Commit.{committed_db, commit_chunk-ok, check_commit-ok}
use nimbus_storage_platform.Database.Laws.{exec-err}

pub in_session-commit :
    (upload_id hash : ℕ) (etags : List (NodeId × ℕ)) (rows : List UploadChunk)
    → any (is_awaiting upload_id hash) rows ≡ true
    → in_session upload_id hash (commit_attempt upload_id hash etags rows) ≡ true
unfolding commit_attempt
in_session-commit upload_id hash etags [] h = cc
in_session-commit upload_id hash etags (r ∷ rs) h =
    ground (arith, in_session-commit upload_id hash etags rs)

pub is_proof-insert :
    (org_id hash : ℕ) (rows : List OrgChunkProof)
    → any (is_proof org_id hash) (insert_proof org_id hash rows) ≡ true
unfolding insert_proof
is_proof-insert org_id hash rows = ground arith

is_proof-insert_other :
    (org_id hash other h : ℕ) (rows : List OrgChunkProof)
    → (other ≢ org_id) ⊎ (h ≢ hash)
    → any (is_proof other h) (insert_proof org_id hash rows) ≡ any (is_proof other h) rows
unfolding insert_proof
is_proof-insert_other org_id hash other h rows d = ground arith

-- A commit proves possession for the session's organisation and the committed hash alone: no other
-- organisation gains a proof by it, and no other chunk is proven.
pub commit_chunk_proves_nothing_else :
    (ports : Ports) (config : Config) (u : Upload) (hash : ℕ) (size : ℤ) (etags : List (NodeId × ℕ))
    (w : World) {v : World} (other h : ℕ)
    → commit_chunk ports config u hash size etags w ≡ (ok tt, v)
    → (other ≢ u.org_id) ⊎ (h ≢ hash)
    → any (is_proof other h) v.db.org_chunk_proofs ≡ any (is_proof other h) w.db.org_chunk_proofs
unfolding committed_db
commit_chunk_proves_nothing_else ports config u hash size etags w other h c d =
    let (a, e, _) = commit_chunk-ok ports config u hash size etags w c in
    ap (λ db. any (is_proof other h) db.org_chunk_proofs) e
    ∙ is_proof-insert_other u.org_id hash other h w.db.org_chunk_proofs d

upsert_chunk_location-err :
    (hash node_id : ℕ) (w : World) {e : UploadError} {v : World}
    → upsert_chunk_location hash node_id w ≡ (err e, v)
    → ⊥
unfolding upsert_chunk_location query call
upsert_chunk_location-err hash node_id w h = ground arith

upsert_global_chunk-err :
    (hash : ℕ) (size : ℤ) (w : World) {e : UploadError} {v : World}
    → upsert_global_chunk hash size w ≡ (err e, v)
    → ⊥
unfolding upsert_global_chunk exec call
upsert_global_chunk-err hash size w h = ground arith

record_locations-err :
    (hash : ℕ) (etags : List (NodeId × ℕ)) (w : World) {e : UploadError} {v : World}
    → record_locations hash etags w ≡ (err e, v)
    → ⊥
unfolding record_locations
record_locations-err hash [] w h = ground arith
record_locations-err hash ((n, x) ∷ etags) w h =
    elim (>>=-err (upsert_chunk_location hash n) (λ _. record_locations hash etags) w h) [
      | inl first ↦ upsert_chunk_location-err hash n w first
      | inr (u, mid, located, rest) ↦ record_locations-err hash etags mid rest
    ]

mark-err :
    (upload_id hash : ℕ) (etags : List (NodeId × ℕ)) (w : World) {e : UploadError} {v : World}
    → mark_chunk_committed upload_id hash etags w ≡ (err e, v)
    → v.db ≡ w.db
unfolding mark_chunk_committed query call
mark-err upload_id hash etags w h = ground arith

-- After the attempt is marked, no later write fails with an error of the service's own.
write_after_mark-err :
    (u : Upload) (hash : ℕ) (size : ℤ) (etags : List (NodeId × ℕ)) (w : World) {e : UploadError}
    {v : World}
    → (upsert_global_chunk hash size >>= λ _.
          record_locations hash etags >>= λ _. record_org_chunk_proof u.org_id hash)
        w
      ≡ (err e, v)
    → ⊥
unfolding record_org_chunk_proof
write_after_mark-err u hash size etags w h =
    elim (>>=-err (upsert_global_chunk hash size)
      (λ _. record_locations hash etags >>= λ _. record_org_chunk_proof u.org_id hash) w h) [
        | inl first ↦ upsert_global_chunk-err hash size w first
        | inr (_, mid, _, rest) ↦
            elim (>>=-err (record_locations hash etags) (λ _. record_org_chunk_proof u.org_id hash)
              mid rest) [
                | inl second ↦ record_locations-err hash etags mid second
                | inr (_, late, _, last) ↦ exec-err _ late last
              ]
      ]

check_commit-err :
    (ports : Ports) (config : Config) (u : Upload) (hash : ℕ) (size : ℤ) (etags : List (NodeId × ℕ))
    (w : World) {e : UploadError} {v : World}
    → check_commit ports config u hash size etags w ≡ (err e, v)
    → v.db ≡ w.db
unfolding check_commit get_chunk_attempt_state query call
check_commit-err ports config u hash size etags w h = ground arith

write_commit-err :
    (ports : Ports) (config : Config) (u : Upload) (hash : ℕ) (size : ℤ) (etags : List (NodeId × ℕ))
    (w : World) {e : UploadError} {v : World}
    → write_commit ports config u hash size etags w ≡ (err e, v)
    → v.db ≡ w.db
unfolding write_commit
write_commit-err ports config u hash size etags w h =
    elim (>>=-err (mark_chunk_committed u.id hash etags)
      (λ _. upsert_global_chunk hash size >>= λ _.
        record_locations hash etags >>= λ _. record_org_chunk_proof u.org_id hash)
      w h) [
        | inl first ↦ mark-err u.id hash etags w first
        | inr (_, mid, _, rest) ↦ absurd (write_after_mark-err u hash size etags mid rest)
      ]

-- A commit that is refused with one of the service's own errors has changed no table.
pub commit_chunk_refused :
    (ports : Ports) (config : Config) (u : Upload) (hash : ℕ) (size : ℤ) (etags : List (NodeId × ℕ))
    (w : World) {e : UploadError} {v : World}
    → commit_chunk ports config u hash size etags w ≡ (err e, v)
    → v.db ≡ w.db
unfolding commit_chunk
commit_chunk_refused ports config u hash size etags w h =
    elim (>>=-err (check_commit ports config u hash size etags)
      (λ _. write_commit ports config u hash size etags) w h) [
        | inl first ↦ check_commit-err ports config u hash size etags w first
        | inr (_, mid, checked, rest) ↦
            write_commit-err ports config u hash size etags mid rest
            ∙ (check_commit-ok ports config u hash size etags w checked).5
      ]
