-- ===== src/Upload/Complete.antt =====
-- `CompleteUpload` of backend/internal/upload/service.go: its demands, its idempotent replay
-- and its compare-and-swap.
use mathlib.Core.List.{Perm}
use mathlib.Core.List.Perm
use nimbus_storage_platform.Base.{
  subst, ℕ, ◌<◌, ◌≡◌, ◌≢◌, refl, sym, ap, ◌∙◌, ◌⊎◌, inl, inr, ℤ, Bool, true, false, not, List, [],
  ◌∷◌, map, arith, Option, none, some, any, filter, All, Bool-cases, length, ltb, Option-cases,
}
use nimbus_storage_platform.Database.{Db, Upload, is_in_progress, empty}
use nimbus_storage_platform.Database.Actions.{
  World, ok, err, database_error, ◌>>=◌, >>=-ok, query, call, reject_if, return,
}
use nimbus_storage_platform.Upload.Repository.{
  UploadError, Action, already_completing, is_open_upload, complete_row, finish_upload,
  keyed_upload, get_by_idempotency_key, find_missing_chunks_for_org, missing_chunks,
}
use nimbus_storage_platform.Upload.Service.{
  Ports, Config, Content, exceeds, result_of, replay, check_quota, check_complete, check_possession,
  create_file, settle, complete_new, complete_upload,
}
use nimbus_storage_platform.Upload.Dedup.{claimable, find_missing-unclaimable}

not-open-complete_row :
    (id file_id version_id : ℕ) (key : Option ℕ) (rows : List Upload)
    → any (is_open_upload id) (map (complete_row id file_id version_id key) rows) ≡ false
unfolding complete_row
not-open-complete_row id file_id version_id key [] = refl
not-open-complete_row id file_id version_id key (u ∷ us) =
    ground (arith, not-open-complete_row id file_id version_id key us)

finish_upload-ok :
    (id file_id version_id : ℕ) (key : Option ℕ) (w : World) {v : World}
    → finish_upload id file_id version_id key w ≡ (ok tt, v)
    → (v.db.uploads ≡ map (complete_row id file_id version_id key) w.db.uploads)
      × (any (is_open_upload id) w.db.uploads ≡ true)
unfolding finish_upload query call
finish_upload-ok id file_id version_id key w h = ground arith

abbrev next_fails : List Bool → Bool
next_fails [] = false
next_fails (fails ∷ rest) = fails

faults-cases :
    (faults : List Bool)
    → (next_fails faults ≡ false) ⊎ ((rest : List Bool) × (faults ≡ true ∷ rest))
faults-cases [] = inl refl
faults-cases (true ∷ rest) = inr (rest, refl)
faults-cases (false ∷ rest) = inl refl

-- One completion wins: once a session's compare-and-swap has succeeded, no later one on the same
-- sessions succeeds, whatever file and key it brings. It changes nothing, and is told
-- `ErrAlreadyCompleting`, unless the database fails at its statement.
pub finish_upload_wins_once :
    (id f₁ v₁ f₂ v₂ : ℕ) (k₁ k₂ : Option ℕ) (w w₁ w₂ : World)
    → finish_upload id f₁ v₁ k₁ w ≡ (ok tt, w₁)
    → w₂.db.uploads ≡ w₁.db.uploads
    → (((finish_upload id f₂ v₂ k₂ w₂).0 ≡ err already_completing)
        ⊎ (((finish_upload id f₂ v₂ k₂ w₂).0 ≡ database_error)
            × ((rest : List Bool) × (w₂.faults ≡ true ∷ rest))))
      × ((finish_upload id f₂ v₂ k₂ w₂).1.db ≡ w₂.db)
unfolding finish_upload query call
finish_upload_wins_once id f₁ v₁ f₂ v₂ k₁ k₂ w w₁ w₂ h same =
    let (rows, _) = finish_upload-ok id f₁ v₁ k₁ w h in
    let shut : any (is_open_upload id) w₂.db.uploads ≡ false =
      ap (any (is_open_upload id)) (same ∙ rows) ∙ not-open-complete_row id f₁ v₁ k₁ w.db.uploads in
    (
      elim (faults-cases w₂.faults) [
        | inl answers ↦ inl (ground (arith, shut, answers))
        | inr (rest, lost) ↦ inr (ground (arith, lost), (rest, lost))
      ],
      ground (arith, shut),
    )

-- A retry under a recorded key returns the first result and changes nothing, whatever the request's
-- other fields and the session's state.
pub complete_upload_replays :
    (ports : Ports) (config : Config) (u e : Upload) (key : ℕ) (order : List ℕ) (size : ℤ)
    (checksum : ℕ) (r : ℕ × ℕ) (w : World)
    → key ≢ empty
    → w.faults ≡ []
    → keyed_upload u.created_by key w.db.uploads ≡ some e
    → result_of e ≡ some r
    → complete_upload ports config u key order size checksum w ≡ (ok r, w)
unfolding complete_upload replay get_by_idempotency_key query call
complete_upload_replays ports config u e key order size checksum r w k f found res =
    ground (arith, found, res)

All-of-filter-nil :
    (p : ℕ → Bool) (xs : List ℕ) → filter (λ x. not (p x)) xs ≡ [] → All (λ x. p x ≡ true) xs
All-of-filter-nil p [] h = tt
All-of-filter-nil p (x ∷ xs) h = elim (Bool-cases (p x)) [
  | inl yes' ↦ (yes', All-of-filter-nil p xs (ground arith))
  | inr no' ↦ cc (rw no' at h)
]

reject_if-ok :
    (b : Bool) (e : UploadError) (w : World) {v : World} → reject_if b e w ≡ (ok tt, v) → b ≡ false
reject_if-ok b e w h = ground arith

length-nil : (xs : List ℕ) → ltb 0 (length xs) ≡ false → xs ≡ []
length-nil [] h = refl
length-nil (x ∷ xs) h = absurd (ground arith)

-- An action that leaves the tables alone.
abbrev pub IsReading : {A : Type 0} → Action A → Type 0
IsReading m = (w : World) → (m w).1.db ≡ w.db

-- A completion that is made anew met its demands: an open session, a chunk order that is not empty,
-- a size within the maximum, and possession of every chunk in the order.
pub record Completable (config : Config) (u : Upload) (order : List ℕ) (size : ℤ) (db : Db)
    : Type 0 where
  pub open_session : is_in_progress u.status ≡ true
  pub some_chunk : 0 < length order
  pub small : exceeds config.max_upload_bytes size ≡ false
  pub possessed : All (λ h. claimable db u.org_id u.id h ≡ true) order

module _ (ports : Ports) (config : Config) (u : Upload) where
  check_possession-ok :
      (order : List ℕ) (w : World) {v : World}
      → check_possession ports config u order w ≡ (ok tt, v)
      → All (λ h. claimable w.db u.org_id u.id h ≡ true) order
  unfolding check_possession
  check_possession-ok order w h =
      let (missing, mid, found, none_left) =
        >>=-ok (find_missing_chunks_for_org ports.row_order u.org_id u.id order)
          (λ missing. reject_if (ltb 0 (length missing)) missing_chunks) w h in
      let nil =
        length-nil missing (reject_if-ok (ltb 0 (length missing)) missing_chunks mid none_left) in
      All-of-filter-nil (claimable w.db u.org_id u.id) order (
        sym (
          Perm.nil-eq (
            subst (λ xs. Perm xs (filter (λ h. not (claimable w.db u.org_id u.id h)) order)) nil
              (find_missing-unclaimable ports.row_order u.org_id u.id order w found))))

  check_complete-head :
      (order : List ℕ) (size : ℤ) (w : World) {v : World}
      → check_complete ports config u order size w ≡ (ok tt, v)
      → (is_in_progress u.status ≡ true)
        × (0 < length order)
        × (exceeds config.max_upload_bytes size ≡ false)
        × ((check_quota ports config u.org_id size >>= λ _. check_possession ports config u order) w
            ≡ (ok tt, v))
  unfolding check_complete
  check_complete-head order size w h = ground arith

  check_complete-ok :
      (order : List ℕ) (size : ℤ) (w : World) {v : World}
      → IsReading (check_quota ports config u.org_id size)
      → check_complete ports config u order size w ≡ (ok tt, v)
      → Completable config u order size w.db
  check_complete-ok order size w reads h =
      let c = check_complete-head order size w h in
      let (_, mid, quota, possession) =
        >>=-ok (check_quota ports config u.org_id size) (λ _. check_possession ports config u order)
          w c.3 in
      let same : mid.db ≡ w.db = ap (λ r. r.1.db) (sym quota) ∙ reads w in
      record {
        open_session = c.0;
        some_chunk = c.1;
        small = c.2;
        possessed = rw (← same) (check_possession-ok order mid possession);
      }

  pub replay-IsReading : (key : ℕ) (w : World) → (replay u key w).1.db ≡ w.db
  unfolding replay get_by_idempotency_key query call
  replay-IsReading key w = ground arith

  replay-none :
      (key : ℕ) (w : World) {r : ℕ × ℕ} {v : World}
      → replay u key w ≡ (ok (some r), v)
      → keyed_upload u.created_by key w.db.uploads ≡ none
      → true ≡ false
  unfolding replay get_by_idempotency_key query call
  replay-none key w h e = ground arith

  replay-found :
      (key : ℕ) (w : World) {r : ℕ × ℕ} {v : World}
      → replay u key w ≡ (ok (some r), v)
      → (e : Upload) × (keyed_upload u.created_by key w.db.uploads ≡ some e)
        × (result_of e ≡ some r)
  unfolding replay get_by_idempotency_key query call
  replay-found key w h = elim (Option-cases (keyed_upload u.created_by key w.db.uploads)) [
    | inl nothing ↦ cc (replay-none key w h nothing)
    | inr (e, found) ↦ (e, found, ground arith)
  ]

  complete_new-Completable :
      (key : ℕ) (content : Content) (w : World) {r : ℕ × ℕ} {v : World}
      → IsReading (check_quota ports config u.org_id content.size_bytes)
      → complete_new ports config u key content w ≡ (ok r, v)
      → Completable config u content.chunk_hashes content.size_bytes w.db
  unfolding complete_new
  complete_new-Completable key content w reads h =
      let (_, mid, checked, rest) =
        >>=-ok (check_complete ports config u content.chunk_hashes content.size_bytes)
          (λ _. create_file ports config u content >>= λ made. settle ports config u key made) w
          h in
      check_complete-ok content.chunk_hashes content.size_bytes w reads checked

  returned :
      (done : ℕ × ℕ) (w : World) {r : ℕ × ℕ} {v : World}
      → return {E = UploadError} done w ≡ (ok r, v)
      → done ≡ r
  returned done w h = ground arith

  -- A completion returns a file and a version only in two ways: as the replay of an earlier result
  -- recorded under its key, or after its session was found open, its chunk order not empty, its size
  -- within the maximum, and every chunk of the order claimable by the organisation. (The usage and
  -- quota ports only read.)
  pub complete_upload-Completable :
      (key : ℕ) (order : List ℕ) (size : ℤ) (checksum : ℕ) (w : World) {r : ℕ × ℕ} {v : World}
      → IsReading (check_quota ports config u.org_id size)
      → complete_upload ports config u key order size checksum w ≡ (ok r, v)
      → ((e : Upload) × (keyed_upload u.created_by key w.db.uploads ≡ some e)
          × (result_of e ≡ some r))
        ⊎ Completable config u order size w.db
  unfolding complete_upload
  complete_upload-Completable key order size checksum w {r} {v} reads h =
      let content : Content = record {
        size_bytes = size;
        checksum = checksum;
        mime_type = u.mime_type;
        chunk_hashes = order;
      } in
      let (prior, mid, replayed, rest) =
        >>=-ok (replay u key)
          (elim [ some done ↦ return done | none ↦ complete_new ports config u key content ]) w h in
      let same : mid.db ≡ w.db = ap (λ x. x.1.db) (sym replayed) ∙ replay-IsReading key w in
      elim (Option-cases prior) [
        | inl anew ↦
            inr (rw (← same) (complete_new-Completable key content mid reads (rw anew at rest)))
        | inr (done, earlier) ↦
            let result : done ≡ r = returned done mid (rw earlier at rest) in
            inl (replay-found key w (replayed ∙ ap (λ p. (ok p, mid)) (earlier ∙ ap some result)))
      ]
