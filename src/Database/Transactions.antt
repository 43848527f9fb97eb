-- ===== src/Database/Transactions.antt =====
-- Transactions (pgx's Begin … Commit): the statements between them change the tables together, or
-- not at all where one of them, the commit included, fails.
use nimbus_storage_platform.Base.{ℕ, ◌≡◌, refl, ◌⊎◌, inl, inr, arith}
use nimbus_storage_platform.Database.{Db}
use nimbus_storage_platform.Database.Actions.{
  M, World, Result, ok, err, database_error, ◌>>=◌, call,
}

-- The statements of a transaction, given the time of the server, which stands still in it.
abbrev pub Body : Type 0 → Type 0 → Type 0
Body E A = ℕ → Db → Result E (A × Db)

abbrev pub end_transaction : {E A : Type 0} → Result E (A × Db) → M E A
end_transaction (ok (a, db)) w = (ok a, record w { db = db })
end_transaction (err e) w = (err e, w)
end_transaction database_error w = (database_error, w)

-- A connection that is lost at any point is the failure of the one `call`: the tables are the same
-- wherever it happens.
unfoldable pub transaction : {E A : Type 0} → Body E A → M E A
transaction body = call >>= λ _. λ w. end_transaction (body w.now w.db) w

module _ {E A : Type 0} (body : Body E A) where
  end_transaction-cases :
      (r : Result E (A × Db)) (w : World)
      → ((end_transaction r w).1.db ≡ w.db) ⊎ ((a : A) × (r ≡ ok (a, (end_transaction r w).1.db)))
  end_transaction-cases (ok (a, db)) w = inr (a, refl)
  end_transaction-cases (err e) w = inl refl
  end_transaction-cases database_error w = inl refl

  -- A transaction leaves the tables as they were, or as its statements make them.
  transaction-cases :
      (w : World)
      → ((transaction body w).1.db ≡ w.db)
        ⊎ ((a : A) × (body w.now w.db ≡ ok (a, (transaction body w).1.db)))
  unfolding transaction call
  transaction-cases w = ground (arith, end_transaction-cases (body w.now w.db) w)

  -- What the statements keep where they succeed, the transaction keeps.
  pub transaction_preserves :
      (P : Db → Type 0) (w : World)
      → P w.db
      → ((a : A) (db : Db) → body w.now w.db ≡ ok (a, db) → P db)
      → P (transaction body w).1.db
  transaction_preserves P w before keeps = elim (transaction-cases w) [
    | inl same ↦ rw same before
    | inr (a, made) ↦ keeps a _ made
  ]

  pub transaction-ok :
      (w : World) {a : A} {v : World}
      → transaction body w ≡ (ok a, v)
      → (body w.now w.db ≡ ok (a, v.db)) × (v.now ≡ w.now)
  unfolding transaction call
  transaction-ok w h = ground arith
