-- ===== src/Upload/Dedup.antt =====
-- The dedup check of backend/internal/upload (`CheckChunks` and the one in `CompleteUpload`): which
-- chunks an organisation may attach without sending their bytes.
use mathlib.Core.List.{Perm}
use mathlib.Core.List.Perm
use nimbus_storage_platform.Base.{
  ℕ, zero, suc, sym, subst, Bool-cases, inl, inr, ◌≡◌, refl, ap₂, ◌∙◌, Bool, not, ◌||◌, List, [],
  ◌∷◌, arith, filter, any,
}
use nimbus_storage_platform.Database.{Db, Chunk}
use nimbus_storage_platform.Database.Actions.{World, ok, >>=-ok, query, exec, call}
use nimbus_storage_platform.Database.Laws.{query-ok}
use nimbus_storage_platform.Upload.Repository.{
  in_session, is_proven, is_live_chunk, touch, unproven, check_candidates,
  find_missing_chunks_for_org, put_row, arrange, uncommitted,
}

-- What an organisation may claim: a chunk committed in this very session, or a live chunk whose
-- possession the organisation has proven before.
abbrev pub claimable : Db → ℕ → ℕ → ℕ → Bool
claimable db org_id upload_id hash =
    in_session upload_id hash db.upload_chunks || is_proven org_id db hash

any-touch :
    (hash now : ℕ) (candidates : List ℕ) (cs : List Chunk)
    → any (is_live_chunk hash) (touch candidates now cs) ≡ any (is_live_chunk hash) cs
unfolding touch
any-touch hash now candidates [] = refl
any-touch hash now candidates (c ∷ cs) = ground (arith, any-touch hash now candidates cs)

filter-filter :
    (p q : ℕ → Bool) (xs : List ℕ)
    → filter (λ x. not (q x)) (filter (λ x. not (p x)) xs) ≡ filter (λ x. not (p x || q x)) xs
filter-filter p q [] = refl
filter-filter p q (x ∷ xs) = ground (arith, filter-filter p q xs)

unproven-touch :
    (org_id now : ℕ) (candidates hs : List ℕ) (db : Db)
    → unproven org_id hs (record db { chunks = touch candidates now db.chunks })
      ≡ unproven org_id hs db
unfolding unproven
unproven-touch org_id now candidates [] db = refl
unproven-touch org_id now candidates (h ∷ hs) db =
    ground (arith, any-touch h now candidates db.chunks, unproven-touch org_id now candidates hs db)

check_candidates-ok :
    (org_id : ℕ) (candidates : List ℕ) (w : World) {missing : List ℕ} {v : World}
    → check_candidates org_id candidates w ≡ (ok missing, v)
    → missing ≡ unproven org_id candidates w.db
unfolding check_candidates exec call
check_candidates-ok org_id [] w h = ground arith
check_candidates-ok org_id (c ∷ cs) w h =
    ground (arith, unproven-touch org_id w.now (c ∷ cs) (c ∷ cs) w.db)

filter-cons-Perm :
    (p : ℕ → Bool) (x : ℕ) (xs ys : List ℕ)
    → Perm (filter p xs) (filter p ys)
    → Perm (filter p (x ∷ xs)) (filter p (x ∷ ys))
filter-cons-Perm p x xs ys s = elim (Bool-cases (p x)) [
  | inl passes ↦ rw passes (Perm.cons x s)
  | inr fails ↦ rw fails s
]

filter-swap-Perm :
    (p : ℕ → Bool) (x y : ℕ) (zs : List ℕ) → Perm (filter p (y ∷ x ∷ zs)) (filter p (x ∷ y ∷ zs))
filter-swap-Perm p x y zs = elim (Bool-cases (p x)) [
  | inl first ↦ elim (Bool-cases (p y)) [
    | inl second ↦ rw (first, second) (Perm.swap x y (filter p zs))
    | inr out ↦ rw (first, out) (Perm.refl _)
  ]
  | inr out ↦ rw out (Perm.refl _)
]

put_row-Perm :
    (p : ℕ → Bool) (position row : ℕ) (xs : List ℕ)
    → Perm (filter p (put_row position row xs)) (filter p (row ∷ xs))
unfolding put_row
put_row-Perm p position row [] = Perm.refl _
put_row-Perm p zero row (x ∷ xs) = Perm.refl _
put_row-Perm p (suc position) row (x ∷ xs) =
    Perm.trans
      (filter-cons-Perm p x (put_row position row xs) (row ∷ xs) (put_row-Perm p position row xs))
      (filter-swap-Perm p row x xs)

-- However the rows are arranged, as often the same of them pass a test.
arrange-Perm :
    (p : ℕ → Bool) (positions rows : List ℕ)
    → Perm (filter p (arrange positions rows)) (filter p rows)
unfolding arrange
arrange-Perm p positions [] = Perm.refl []
arrange-Perm p [] (row ∷ rows) = Perm.refl _
arrange-Perm p (position ∷ positions) (row ∷ rows) =
    Perm.trans (put_row-Perm p position row (arrange positions rows))
      (filter-cons-Perm p row (arrange positions rows) rows (arrange-Perm p positions rows))

-- Where it answers, `FindMissingChunksForOrg` returns, in some order and as often as they are asked
-- for, exactly the requested hashes that the organisation cannot claim. It can claim a chunk that is
-- committed in this very session, also where the chunk has been doomed since, and a live chunk that
-- it has proven before; that another organisation has stored the bytes counts for nothing.
pub find_missing-unclaimable :
    (row_order : Db → List ℕ → List ℕ) (org_id upload_id : ℕ) (hashes : List ℕ) (w : World)
    {missing : List ℕ} {v : World}
    → find_missing_chunks_for_org row_order org_id upload_id hashes w ≡ (ok missing, v)
    → Perm missing (filter (λ h. not (claimable w.db org_id upload_id h)) hashes)
unfolding find_missing_chunks_for_org unproven
find_missing-unclaimable row_order org_id upload_id hashes w h =
    let asked = λ (db : Db).
      arrange (row_order db (uncommitted upload_id hashes db)) (uncommitted upload_id hashes db) in
    let (candidates, mid, q, c) = >>=-ok (query asked) (check_candidates org_id) w h in
    let (read, same) = query-ok asked w q in
    let rows = uncommitted upload_id hashes w.db in
    subst (λ xs. Perm xs (filter (λ h. not (claimable w.db org_id upload_id h)) hashes))
      (sym (check_candidates-ok org_id candidates mid c ∙ ap₂ (unproven org_id) read same.same_db))
      (subst (Perm (unproven org_id (asked w.db) w.db))
        (filter-filter (λ x. in_session upload_id x w.db.upload_chunks) (is_proven org_id w.db)
          hashes)
        (arrange-Perm (λ x. not (is_proven org_id w.db x)) (row_order w.db rows) rows))
