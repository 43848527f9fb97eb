-- ===== src/Storage/Ring/Search.antt =====
-- The binary search of backend/internal/storage/ring.go against a linear scan of the table.
use nimbus_storage_platform.Base.{
  ℕ, zero, suc, ◌+◌, ◌/◌, ◌≤◌, ◌<◌, ◌≡◌, Bool, true, false, List, [], ◌∷◌, inl, inr, arith,
  if◌then◌else◌, ltb, leb, length, All, Bool-cases,
}
use nimbus_storage_platform.Storage.Ring.{
  Vnode, Ring, at_or_after, search_between, sort_search, search_index,
}

-- The table is in position order.
abbrev pub IsSorted : List Vnode → Type 0
IsSorted [] = Unit {0}
IsSorted (v ∷ vs) = All (λ w. v.hash ≤ w.hash) vs × IsSorted vs

-- How many vnodes stand before the first one at or after h: the linear scan.
unfoldable pub before : List Vnode → ℕ → ℕ
before [] h = 0
before (v ∷ vs) h = if leb h v.hash then 0 else suc (before vs h)

-- The reference for `search_index`: that place, or 0 where the position is past the last vnode.
unfoldable pub first_at_or_after : List Vnode → ℕ → ℕ
unfolding before
first_at_or_after vs h = if ltb (before vs h) (length vs) then before vs h else 0

-- Once true, a test stays true up to n.
abbrev IsMonotone : (ℕ → Bool) → ℕ → Type 0
IsMonotone f n = (x y : ℕ) → x ≤ y → y < n → f x ≡ true → f y ≡ true

-- r parts the tests below n into the false ones and the true ones.
record Splits (f : ℕ → Bool) (n : ℕ) (r : ℕ) : Type 0 where
  in_range : r ≤ n
  below : (x : ℕ) → x < r → f x ≡ false
  above : (x : ℕ) → r ≤ x → x < n → f x ≡ true

module _ (f : ℕ → Bool) (n : ℕ) (mono : IsMonotone f n) where
  below-mid : (mid : ℕ) → mid < n → f mid ≡ false → (x : ℕ) → x < suc mid → f x ≡ false
  below-mid mid hm e x hx = elim (Bool-cases (f x)) [
    | inr no' ↦ no'
    | inl yes' ↦ cc (mono x mid (omega arith) hm yes')
  ]

  above-mid : (mid : ℕ) → f mid ≡ true → (x : ℕ) → mid ≤ x → x < n → f x ≡ true
  above-mid mid e x h k = mono mid x h k e

  search_between-Splits :
      (fuel i j : ℕ)
      → i ≤ j
      → j ≤ n
      → j ≤ i + fuel
      → ((x : ℕ) → x < i → f x ≡ false)
      → ((x : ℕ) → j ≤ x → x < n → f x ≡ true)
      → Splits f n (search_between f fuel i j)
  unfolding search_between
  search_between-Splits zero i j h k enough lo hi = record {
    in_range = omega arith;
    below = lo;
    above = λ x p q. hi x (omega arith) q;
  }
  search_between-Splits (suc fuel) i j h k enough lo hi = elim (Bool-cases (ltb i j)) [
    | inr ended ↦
        rw ended
          (record { in_range = ground arith; below = lo; above = λ x p q. hi x (ground arith) q })
    | inl open' ↦ elim (Bool-cases (f ((i + j) / 2))) [
      | inl up ↦
          rw (open', up)
            (search_between-Splits fuel i ((i + j) / 2) (ground arith) (ground arith) (ground arith)
              lo (above-mid ((i + j) / 2) up))
      | inr down ↦
          rw (open', down)
            (search_between-Splits fuel ((i + j) / 2 + 1) j (ground arith) k (ground arith)
              (λ x p. below-mid ((i + j) / 2) (ground arith) down x (omega arith)) hi)
    ]
  ]

  sort_search-Splits : Splits f n (sort_search n f)
  unfolding sort_search
  sort_search-Splits =
      search_between-Splits n 0 n (omega arith) (omega arith) (omega arith)
        (λ x h. absurd (omega arith)) (λ x h k. absurd (omega arith))

before-le : (vs : List Vnode) (h : ℕ) → before vs h ≤ length vs
unfolding before
before-le [] h = omega arith
before-le (v ∷ vs) h = ground (arith, before-le vs h)

at_or_after-below : (vs : List Vnode) (h x : ℕ) → x < before vs h → at_or_after vs h x ≡ false
unfolding before
at_or_after-below [] h x p = absurd (omega arith)
at_or_after-below (v ∷ vs) h zero p = ground arith
at_or_after-below (v ∷ vs) h (suc x) p = ground (arith, at_or_after-below vs h x)

at_or_after-All :
    (vs : List Vnode) (b h x : ℕ)
    → All (λ w. b ≤ w.hash) vs
    → h ≤ b
    → x < length vs
    → at_or_after vs h x ≡ true
at_or_after-All [] b h x a p q = absurd (omega arith)
at_or_after-All (v ∷ vs) b h zero a p q = ground arith
at_or_after-All (v ∷ vs) b h (suc x) a p q = at_or_after-All vs b h x a.1 p (omega arith)

at_or_after-above :
    (vs : List Vnode) (h x : ℕ)
    → IsSorted vs
    → before vs h ≤ x
    → x < length vs
    → at_or_after vs h x ≡ true
unfolding before
at_or_after-above [] h x s p q = absurd (omega arith)
at_or_after-above (v ∷ vs) h zero s p q = ground arith
at_or_after-above (v ∷ vs) h (suc x) s p q = elim (Bool-cases (leb h v.hash)) [
  | inl first ↦ at_or_after-All vs v.hash h x s.0 (ground arith) (omega arith)
  | inr later ↦ at_or_after-above vs h x s.1 (ground arith) (omega arith)
]

at_or_after-IsMonotone :
    (vs : List Vnode) (h : ℕ) → IsSorted vs → IsMonotone (at_or_after vs h) (length vs)
at_or_after-IsMonotone vs h s x y p q e = elim (Bool-cases (ltb x (before vs h))) [
  | inl small ↦ cc (at_or_after-below vs h x (ground arith))
  | inr large ↦ at_or_after-above vs h y s (ground arith) q
]

search-eq-before :
    (vs : List Vnode) (h : ℕ)
    → IsSorted vs
    → sort_search (length vs) (at_or_after vs h) ≡ before vs h
search-eq-before vs h s =
    let f = at_or_after vs h in
    let r = sort_search (length vs) f in
    let sp = sort_search-Splits f (length vs) (at_or_after-IsMonotone vs h s) in
    elim (Bool-cases (ltb r (before vs h))) [
      | inl less ↦ cc (
        sp.above r (omega arith) (ground (arith, before-le vs h)),
        at_or_after-below vs h r (ground arith),
      )
      | inr not_less ↦ elim (Bool-cases (ltb (before vs h) r)) [
        | inl more ↦ cc (
          sp.below (before vs h) (ground arith),
          at_or_after-above vs h (before vs h) s (omega arith) (ground (arith, sp.in_range)),
        )
        | inr not_more ↦ ground arith
      ]
    ]

-- On a table in position order, the binary search of `Ring.search` returns what the linear scan
-- does: the first vnode whose hash is at or after h, and 0 where there is none.
pub search_index-eq-first_at_or_after :
    (r : Ring) (h : ℕ) → IsSorted r.vnodes → search_index r h ≡ first_at_or_after r.vnodes h
unfolding search_index first_at_or_after
search_index-eq-first_at_or_after r h s =
    rw (search-eq-before r.vnodes h s) (ground (arith, before-le r.vnodes h))

search_between-le : (f : ℕ → Bool) (fuel i j n : ℕ) → i ≤ j → j ≤ n → search_between f fuel i j ≤ n
unfolding search_between
search_between-le f zero i j n h k = omega arith
search_between-le f (suc fuel) i j n h k = ground (
  arith,
  search_between-le f fuel ((i + j) / 2 + 1) j n,
  search_between-le f fuel i ((i + j) / 2) n,
)

-- On a ring with a vnode the search returns an index of the table, sorted or not.
pub search_index-lt-length :
    (r : Ring) (h : ℕ) → 0 < length r.vnodes → search_index r h < length r.vnodes
unfolding search_index sort_search
search_index-lt-length r h pos = ground (
  arith,
  search_between-le (at_or_after r.vnodes h) (length r.vnodes) 0 (length r.vnodes) (length r.vnodes)
      (omega arith) (omega arith),
)
