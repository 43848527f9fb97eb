-- ===== src/File/Order.antt =====
-- `orderHealthyFirst` of backend/internal/file/service.go: the loop of swaps and the order it leaves.
use mathlib.Core.List.{Perm, perm_middle, append_assoc, append-nil}
use mathlib.Core.List.Perm
use nimbus_storage_platform.Base.{
  ℕ, suc, ◌+◌, ◌≡◌, refl, ap, sym, ◌∙◌, Bool, true, false, not, some, List, [], ◌∷◌, ◌++◌, arith,
  if◌then◌else◌, filter, get_elem?, length, length-append, Bool-cases, inl, inr,
}
use nimbus_storage_platform.File.Service.{put, swap, order_from, order_healthy_first}

get-middle : (xs : List ℕ) (y : ℕ) (ys : List ℕ) → get_elem? (xs ++ (y ∷ ys)) (length xs) ≡ some y
get-middle [] y ys = refl
get-middle (x ∷ xs) y ys = get-middle xs y ys

put-middle :
    (a : ℕ) (xs : List ℕ) (y : ℕ) (ys : List ℕ)
    → put (length xs) a (xs ++ (y ∷ ys)) ≡ xs ++ (a ∷ ys)
put-middle a [] y ys = refl
put-middle a (x ∷ xs) y ys = ap (λ r. x ∷ r) (put-middle a xs y ys)

-- The down nodes passed so far, with the first of them swapped to the end for each healthy one.
abbrev pub to_back : List ℕ → List ℕ
to_back [] = []
to_back (d ∷ ds) = ds ++ (d ∷ [])

module _ (is_healthy : ℕ → Bool) where
  -- The order of the down nodes, as the swaps leave it.
  pub down_order : List ℕ → List ℕ → List ℕ
  down_order ds [] = ds
  down_order ds (x ∷ xs) =
      if is_healthy x then down_order (to_back ds) xs else down_order (ds ++ (x ∷ [])) xs

-- One swap moves the next healthy node behind the healthy ones, and the first down node to its place.
swap-moves :
    (hs ds : List ℕ) (x : ℕ) (xs : List ℕ) (i : ℕ)
    → i ≡ length hs + length ds
    → swap (length hs) i (hs ++ (ds ++ (x ∷ xs))) ≡ (hs ++ (x ∷ [])) ++ (to_back ds ++ xs)
unfolding swap
swap-moves hs [] x xs i e =
    let at : i ≡ length hs = omega arith in
    rw (at, get-middle hs x xs, put-middle x hs x xs, put-middle x hs x xs)
      (sym (append_assoc hs (x ∷ []) xs))
swap-moves hs (d ∷ ds) x xs i e =
    let behind : i ≡ length (hs ++ (d ∷ ds)) = omega (arith, length-append hs (d ∷ ds)) in
    let there : get_elem? (hs ++ (d ∷ (ds ++ (x ∷ xs)))) i ≡ some x =
      rw (behind, ← append_assoc hs (d ∷ ds) (x ∷ xs)) (get-middle (hs ++ (d ∷ ds)) x xs) in
    rw (get-middle hs d (ds ++ (x ∷ xs)), there, put-middle x hs d (ds ++ (x ∷ xs)))
      (placed ∙ (append_assoc hs (x ∷ ds) (d ∷ xs) ∙ sym moved))
  where
    filled : i ≡ length (hs ++ (x ∷ ds))
    filled = omega (arith, e, length-append hs (x ∷ ds))

    placed : put i d (hs ++ (x ∷ (ds ++ (x ∷ xs)))) ≡ (hs ++ (x ∷ ds)) ++ (d ∷ xs)
    placed = rw (filled, ← append_assoc hs (x ∷ ds) (x ∷ xs)) (put-middle d (hs ++ (x ∷ ds)) x xs)

    moved : (hs ++ (x ∷ [])) ++ ((ds ++ (d ∷ [])) ++ xs) ≡ hs ++ (x ∷ (ds ++ (d ∷ xs)))
    moved = rw (append_assoc ds (d ∷ []) xs, append_assoc hs (x ∷ []) (ds ++ (d ∷ xs))) refl

length-to_back : (ds : List ℕ) → length (to_back ds) ≡ length ds
length-to_back [] = refl
length-to_back (d ∷ ds) = omega (arith, length-append ds (d ∷ []))

found :
    (hs ds : List ℕ) (x : ℕ) (xs : List ℕ) (i : ℕ)
    → i ≡ length hs + length ds
    → get_elem? (hs ++ (ds ++ (x ∷ xs))) i ≡ some x
found hs ds x xs i e =
    let past : i ≡ length (hs ++ ds) = omega (arith, length-append hs ds) in
    rw (past, ← append_assoc hs ds (x ∷ xs)) (get-middle (hs ++ ds) x xs)

module _ (is_healthy : ℕ → Bool) where
  turn :
      (left i k x : ℕ) (l : List ℕ)
      → get_elem? l i ≡ some x
      → order_from is_healthy (suc left) i k l ≡ (
          if is_healthy x
          then order_from is_healthy left (suc i) (suc k) (swap k i l)
          else order_from is_healthy left (suc i) k l)
  unfolding order_from
  turn left i k x l at_i = ground (arith, at_i)

  -- The loop, from healthy nodes `hs` and down nodes `ds` passed so far.
  order_from-splits :
      (hs ds rest : List ℕ) (i k : ℕ)
      → i ≡ length hs + length ds
      → k ≡ length hs
      → order_from is_healthy (length rest) i k (hs ++ (ds ++ rest))
        ≡ (hs ++ filter is_healthy rest) ++ down_order is_healthy ds rest
  unfolding down_order order_from
  order_from-splits hs ds [] i k e f = rw (append-nil ds, append-nil hs) refl
  order_from-splits hs ds (x ∷ xs) i k e f = elim (Bool-cases (is_healthy x)) [
    | inl up ↦
        rw
          (
            turn (length xs) i k x _ (found hs ds x xs i e),
            up,
            f,
            swap-moves hs ds x xs i e,
            order_from-splits (hs ++ (x ∷ [])) (to_back ds) xs (suc i) (suc (length hs))
                (omega (arith, e, length-append hs (x ∷ []), length-to_back ds))
                (omega (arith, length-append hs (x ∷ []))),
          )
          (ap (λ front. front ++ down_order is_healthy (to_back ds) xs)
            (append_assoc hs (x ∷ []) (filter is_healthy xs)))
    | inr lost ↦
        rw (turn (length xs) i k x _ (found hs ds x xs i e), lost, ← append_assoc ds (x ∷ []) xs)
          (order_from-splits hs (ds ++ (x ∷ [])) xs (suc i) k
            (omega (arith, e, length-append ds (x ∷ []))) f)
  ]

  to_back-Perm : (ds xs : List ℕ) → Perm (to_back ds ++ xs) (ds ++ xs)
  to_back-Perm [] xs = Perm.refl xs
  to_back-Perm (d ∷ ds) xs = rw (append_assoc ds (d ∷ []) xs) (perm_middle ds xs)

  down_order-Perm :
      (ds rest : List ℕ)
      → Perm (down_order is_healthy ds rest) (ds ++ filter (λ x. not (is_healthy x)) rest)
  unfolding down_order
  down_order-Perm ds [] = rw (append-nil ds) (Perm.refl ds)
  down_order-Perm ds (x ∷ xs) = elim (Bool-cases (is_healthy x)) [
    | inl up ↦ rw up (
        Perm.trans (down_order-Perm (to_back ds) xs)
          (to_back-Perm ds (filter (λ x. not (is_healthy x)) xs)))
    | inr lost ↦
        rw (lost, ← append_assoc ds (x ∷ []) (filter (λ x. not (is_healthy x)) xs))
          (down_order-Perm (ds ++ (x ∷ [])) xs)
  ]

  -- The loop of swaps puts the healthy nodes first, in the order that they had, and behind them the
  -- down nodes, each once; those it may reorder.
  pub order_healthy_first_sorts :
      (node_ids : List ℕ)
      → (lost : List ℕ) × (order_healthy_first is_healthy node_ids
          ≡ filter is_healthy node_ids ++ lost)
        × Perm lost (filter (λ x. not (is_healthy x)) node_ids)
  unfolding order_healthy_first
  order_healthy_first_sorts node_ids = (
    down_order is_healthy [] node_ids,
    order_from-splits [] [] node_ids 0 0 refl refl,
    down_order-Perm [] node_ids,
  )

  -- Two down nodes before a healthy one change places: the loop is not stable on them.
  pub order_healthy_first_reorders :
      (a b c : ℕ)
      → is_healthy a ≡ false
      → is_healthy b ≡ false
      → is_healthy c ≡ true
      → order_healthy_first is_healthy (a ∷ b ∷ c ∷ []) ≡ c ∷ b ∷ a ∷ []
  unfolding order_healthy_first order_from swap
  order_healthy_first_reorders a b c p q r = ground (arith, p, q, r)
