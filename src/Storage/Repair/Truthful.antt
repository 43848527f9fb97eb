-- ===== src/Storage/Repair/Truthful.antt =====
-- What the table of locations says of a node after a repair pass (backend/internal/storage/repair.go).
use nimbus_storage_platform.Base.{
  ℕ, ◌≡◌, refl, sym, subst, ◌⊎◌, inl, inr, Bool, true, false, Option, none, some, List, [], ◌∷◌,
  any, ◌==◌, lookup, arith, Bool-cases,
}
use nimbus_storage_platform.Database.{stored, degraded}
use nimbus_storage_platform.Database.Actions.{World, ok}
use nimbus_storage_platform.Database.Laws.{exec-calm, query-calm}
use nimbus_storage_platform.Storage.Ring.{NodeId}
use nimbus_storage_platform.Storage.Router.{Router}
use nimbus_storage_platform.Storage.Locations.{
  update_status, locations_of, locations_for_chunk, committed_on, mark_chunk_location_degraded,
  mark_chunk_location_repaired, committed_chunks_for_node,
}
use nimbus_storage_platform.Storage.Repair.{
  Minio, RepairResult, tally, get_object, put_object, other_location, record_stored, store_copy,
  copy_from, restore_chunk, outcome_of, repair_chunk, repair_chunks, repair_node,
}
use nimbus_storage_platform.Storage.Repair.Records.{
  IsStore, says, says-degraded, says-repaired, said-committed,
}

module _ {Objects : Type 0} (minio : Minio Objects) (Present : ℕ → ℕ → Objects → Type 0)
    (store : IsStore minio Present) (rt : Router) (node : NodeId) (endpoint : ℕ)
    (known : lookup node rt.internal_minio ≡ some endpoint) where
  -- What a part of the restoration leaves behind: the node says no more than it did, or what it has.
  abbrev Leaves : World × Objects → World × Objects → Type 0
  Leaves (w, objects) (v, after) =
      (v.faults ≡ [])
      × ((k : ℕ) → says k node v.db ≡ true → (says k node w.db ≡ true) ⊎ Present endpoint k after)
      × ((k : ℕ) → Present endpoint k objects → Present endpoint k after)

  Leaves-refl : (w : World) (objects : Objects) → w.faults ≡ [] → Leaves (w, objects) (w, objects)
  Leaves-refl w objects calm = (calm, (λ k h. inl h), λ k p. p)

  repaired-Leaves :
      (hash : ℕ) (w : World) (objects after : Objects)
      → w.faults ≡ []
      → Present endpoint hash after
      → ((k : ℕ) → Present endpoint k objects → Present endpoint k after)
      → Leaves (w, objects) (record w { db = update_status stored hash node w.db }, after)
  repaired-Leaves hash w objects after calm there keeps = (
    calm,
    (λ k h. elim (says-repaired k hash node w.db.chunk_locations h) [
      | inl before ↦ inl before
      | inr same ↦ inr (rw same there)
    ]),
    keeps,
  )

  record_stored-Leaves :
      (hash : ℕ) (b : Bool) (w : World) (objects after : Objects)
      → w.faults ≡ []
      → (b ≡ true → Present endpoint hash after)
      → ((k : ℕ) → Present endpoint k objects → Present endpoint k after)
      → Leaves (w, objects) (record_stored minio rt hash node (b, after) w).1
  unfolding mark_chunk_location_repaired
  record_stored-Leaves hash true w objects after calm there keeps =
      rw (exec-calm (λ now. update_status stored hash node) w calm)
        (repaired-Leaves hash w objects after calm (there refl) keeps)
  record_stored-Leaves hash false w objects after calm there keeps = (calm, (λ k h. inl h), keeps)

  put_object-known :
      (hash bytes : ℕ) (objects : Objects)
      → put_object minio rt node hash bytes objects ≡ minio.store_object endpoint hash bytes objects
  unfolding put_object
  put_object-known hash bytes objects = rw (known, put_object) refl

  store_copy-Leaves :
      (hash : ℕ) (copy : Option ℕ) (w : World) (objects : Objects)
      → w.faults ≡ []
      → Leaves (w, objects) (store_copy minio rt hash node objects copy w).1
  store_copy-Leaves hash none w objects calm = Leaves-refl w objects calm
  store_copy-Leaves hash (some bytes) w objects calm =
      let put = minio.store_object endpoint hash bytes objects in
      subst (λ p. Leaves (w, objects) (record_stored minio rt hash node p w).1)
        (sym (put_object-known hash bytes objects))
        (record_stored-Leaves hash put.0 w objects put.1 calm
          (store.store_present endpoint hash bytes objects)
          (store.store_keeps endpoint hash bytes objects endpoint))

  copy_from-Leaves :
      (hash : ℕ) (source : NodeId) (w : World) (objects : Objects)
      → w.faults ≡ []
      → Leaves (w, objects) (copy_from minio rt hash node source objects w).1
  copy_from-Leaves hash source w objects calm = elim (Bool-cases (source == 0)) [
    | inl absent ↦ rw absent (Leaves-refl w objects calm)
    | inr there ↦
        rw there (store_copy-Leaves hash (get_object minio rt source hash objects) w objects calm)
  ]

  -- After the mark, only what the rest of the restoration brings back is said of the chunk.
  marked-Leaves :
      (hash : ℕ) (w : World) (s : World × Objects) (objects : Objects)
      → Leaves (record w { db = update_status degraded hash node w.db }, objects) s
      → Leaves (w, objects) s × (says hash node s.0.db ≡ true → Present endpoint hash s.1)
  marked-Leaves hash w s objects (calm, said, keeps) = (
    (
      calm,
      (λ k h. elim (said k h) [
        | inl before ↦ inl (says-degraded k hash node w.db.chunk_locations before).0
        | inr there ↦ inr there
      ]),
      keeps,
    ),
    λ h. elim (said hash h) [
      | inl before ↦ ground (arith, says-degraded hash hash node w.db.chunk_locations before)
      | inr there ↦ there
    ],
  )

  -- Whether or not it succeeds, a restoration leaves the chunk said only where it is there.
  restore_chunk-Leaves :
      (hash : ℕ) (w : World) (objects : Objects)
      → w.faults ≡ []
      → let s = (restore_chunk minio rt hash node (w, objects)).1 in
        Leaves (w, objects) s × (says hash node s.0.db ≡ true → Present endpoint hash s.1)
  unfolding restore_chunk mark_chunk_location_degraded locations_for_chunk
  restore_chunk-Leaves hash w objects calm =
      let u = record w { db = update_status degraded hash node w.db } in
      let source = other_location minio rt node (locations_of hash u.db) in
      rw (exec-calm (λ now. update_status degraded hash node) w calm) (
        rw (query-calm (locations_of hash) u calm) (
          marked-Leaves hash w (copy_from minio rt hash node source objects u).1 objects
            (copy_from-Leaves hash source u objects calm)))

  -- What is said of the node is there, or still to be checked.
  abbrev Pending : List ℕ → World × Objects → Type 0
  Pending hashes (w, objects) =
      (w.faults ≡ [])
      × ((k : ℕ)
          → says k node w.db ≡ true
          → Present endpoint k objects ⊎ (any (λ h. h == k) hashes ≡ true))

  outcome_of-state : (r : Bool × (World × Objects)) → (outcome_of minio rt r).1 ≡ r.1
  outcome_of-state (true, s) = refl
  outcome_of-state (false, s) = refl

  found-Pending :
      (hash : ℕ) (hashes : List ℕ) (w : World) (objects : Objects)
      → Pending (hash ∷ hashes) (w, objects)
      → Present endpoint hash objects
      → Pending hashes (w, objects)
  found-Pending hash hashes w objects (calm, said) there = (
    calm,
    λ k h. elim (said k h) [
      | inl present ↦ inl present
      | inr listed ↦ elim (Bool-cases (hash == k)) [
        | inl same ↦ let at : k ≡ hash = ground arith in inl (rw at there)
        | inr other ↦ inr (ground arith)
      ]
    ],
  )

  restored-Pending :
      (hash : ℕ) (hashes : List ℕ) (w : World) (objects : Objects) (s : World × Objects)
      → Pending (hash ∷ hashes) (w, objects)
      → Leaves (w, objects) s
      → (says hash node s.0.db ≡ true → Present endpoint hash s.1)
      → Pending hashes s
  restored-Pending hash hashes w objects s (calm, said) (still_calm, leaves, keeps) there = (
    still_calm,
    λ k h. elim (Bool-cases (hash == k)) [
      | inl same ↦ let at : k ≡ hash = ground arith in inl (rw at (there (rw at at h)))
      | inr other ↦ elim (leaves k h) [
        | inr present ↦ inl present
        | inl before ↦ elim (said k before) [
          | inl present ↦ inl (keeps k present)
          | inr listed ↦ inr (ground arith)
        ]
      ]
    ],
  )

  repair_chunk-Pending :
      (hash : ℕ) (hashes : List ℕ) (w : World) (objects : Objects)
      → Pending (hash ∷ hashes) (w, objects)
      → Pending hashes (repair_chunk minio rt endpoint node hash (w, objects)).1
  unfolding repair_chunk
  repair_chunk-Pending hash hashes w objects p =
      elim (Bool-cases (minio.stat_object endpoint hash objects)) [
        | inl there ↦
            rw there (
              found-Pending hash hashes w objects p
                (store.stat_present endpoint hash objects there))
        | inr absent ↦
            let restored = restore_chunk-Leaves hash w objects p.0 in
            rw absent (
              subst (Pending hashes)
                (sym (outcome_of-state (restore_chunk minio rt hash node (w, objects))))
                (restored-Pending hash hashes w objects
                  (restore_chunk minio rt hash node (w, objects)).1 p restored.0 restored.1))
      ]

  repair_chunks-Pending :
      (hashes : List ℕ) (res : RepairResult) (s : World × Objects)
      → Pending hashes s
      → Pending [] (repair_chunks minio rt endpoint node hashes res s).1
  unfolding repair_chunks
  repair_chunks-Pending [] res s p = p
  repair_chunks-Pending (hash ∷ hashes) res s p =
      let turn = repair_chunk minio rt endpoint node hash s in
      repair_chunks-Pending hashes (tally turn.0 res) turn.1
        (repair_chunk-Pending hash hashes s.0 s.1 p)

  -- A pass over a node that MinIO clients are known for, with a database that answers: it returns a
  -- count, and every location of the node that is recorded as committed afterwards is there,
  -- whichever calls to the nodes failed meanwhile.
  pub repair_node-truthful :
      (w : World) (objects : Objects)
      → w.faults ≡ []
      → let (result, (v, after)) = repair_node minio rt node (w, objects) in
        ((res : RepairResult) × (result ≡ ok res))
        × ((k : ℕ) → says k node v.db ≡ true → Present endpoint k after)
  unfolding repair_node committed_chunks_for_node
  repair_node-truthful w objects calm =
      let start : RepairResult = record { checked = 0; restored = 0; unrepairable = 0 } in
      let hashes = committed_on node w.db in
      let done = repair_chunks minio rt endpoint node hashes start (w, objects) in
      let pending =
        repair_chunks-Pending hashes start (w, objects)
          (calm, λ k h. inr (said-committed k node w.db.chunk_locations h)) in
      rw (repair_node, known, query-calm (committed_on node) w calm)
        ((done.0, refl), λ k h. elim (pending.1 k h) [ inl present ↦ present | inr listed ↦ cc ])
