-- ===== src/Base/Indexing.antt =====
-- Reading a list by index: across an append, after a drop, within a take, and around a rotation.
use Prim.Native.Nat.{ℕ, zero, suc, ◌+◌, ◌-◌, ◌%◌, ◌≤◌, ◌<◌}
use mathlib.Core.Path.{◌≡◌, refl, ap, ◌∙◌}
use mathlib.Core.List.{List, [], ◌∷◌, ◌++◌}
use mathlib.Core.Logic.{inl, inr}
use native.Mathlib.Omega.{arith}
use native.Mathlib.Nat.{mod-eq_of_lt}
use nimbus_storage_platform.Base.Tests.{ltb, Bool-cases}
use nimbus_storage_platform.Base.Lists.{
  length, get_elem?, take, drop, length-drop, length-take, length-append,
}

module _ {ℓ} {A : Type ℓ} where
  pub get_elem?-append_left :
      (xs ys : List A) (i : ℕ) → i < length xs → get_elem? (xs ++ ys) i ≡ get_elem? xs i
  get_elem?-append_left [] ys i h = absurd (omega arith)
  get_elem?-append_left (x ∷ xs) ys zero h = refl
  get_elem?-append_left (x ∷ xs) ys (suc i) h = get_elem?-append_left xs ys i (omega arith)

  pub get_elem?-append_right :
      (xs ys : List A) (i : ℕ) → get_elem? (xs ++ ys) (length xs + i) ≡ get_elem? ys i
  get_elem?-append_right [] ys i = ap (get_elem? ys) (omega arith)
  get_elem?-append_right (x ∷ xs) ys i =
      let e : suc (length xs) + i ≡ suc (length xs + i) = omega arith in
      rw e (get_elem?-append_right xs ys i)

  pub get_elem?-drop :
      (n : ℕ) (xs : List A) (i : ℕ) → get_elem? (drop n xs) i ≡ get_elem? xs (n + i)
  get_elem?-drop zero xs i = ap (get_elem? xs) (omega arith)
  get_elem?-drop (suc n) [] i = refl
  get_elem?-drop (suc n) (x ∷ xs) i =
      let e : suc n + i ≡ suc (n + i) = omega arith in rw e (get_elem?-drop n xs i)

  pub get_elem?-take :
      (n : ℕ) (xs : List A) (i : ℕ) → i < n → get_elem? (take n xs) i ≡ get_elem? xs i
  get_elem?-take zero xs i h = absurd (omega arith)
  get_elem?-take (suc n) [] i h = refl
  get_elem?-take (suc n) (x ∷ xs) zero h = refl
  get_elem?-take (suc n) (x ∷ xs) (suc i) h = get_elem?-take n xs i (omega arith)

  -- The list read from place `start` on, around its end.
  abbrev pub rotate : ℕ → List A → List A
  rotate start xs = drop start xs ++ take start xs

  -- `xs[(start + i) % len(xs)]` is the i-th entry of the rotated list.
  pub get_elem?-rotate :
      (xs : List A) (start i : ℕ)
      → start < length xs
      → i < length xs
      → get_elem? xs ((start + i) % length xs) ≡ get_elem? (rotate start xs) i
  get_elem?-rotate xs start i hs hi = elim (Bool-cases (ltb (start + i) (length xs))) [
    | inl inside ↦
        rw (mod-eq_of_lt {n = start + i} {m = length xs} (ground arith))
          (sym-left i (ground (arith, length-drop start xs)))
    | inr past ↦
        let k = start + i - length xs in
        let e : (start + i) % length xs ≡ k = wrap (ground arith) in
        let f : i ≡ length (drop start xs) + k = ground (arith, length-drop start xs) in
        rw e (
          get_elem?-take-back k (ground arith)
          ∙ ap (get_elem? (rotate start xs)) (omega (arith, f)))
  ]
    where
      sym-left :
          (j : ℕ)
          → j < length (drop start xs)
          → get_elem? xs (start + j) ≡ get_elem? (rotate start xs) j
      sym-left j h =
          rw (get_elem?-append_left (drop start xs) (take start xs) j h, get_elem?-drop start xs j)

      wrap : length xs ≤ start + i → (start + i) % length xs ≡ start + i - length xs
      wrap h = grind (arith, mod-eq_of_lt)

      get_elem?-take-back :
          (k : ℕ)
          → k < start
          → get_elem? xs k ≡ get_elem? (rotate start xs) (length (drop start xs) + k)
      get_elem?-take-back k h =
          rw (get_elem?-append_right (drop start xs) (take start xs) k, get_elem?-take start xs k h)

  pub length-rotate :
      (start : ℕ) (xs : List A) → start ≤ length xs → length (rotate start xs) ≡ length xs
  length-rotate start xs h = omega (
    arith,
    length-append (drop start xs) (take start xs),
    length-drop start xs,
    length-take start xs,
  )
