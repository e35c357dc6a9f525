-- ===== src/Common/Sort.antt =====
-- Python's stable `list.sort(key=…)` and `ORDER BY`: `le x y` says that `x` may stand before `y`.
use Prim.Native.Nat.{ℕ, zero, suc}
use mathlib.Core.Path.{◌≡◌, refl}
use mathlib.Core.Bool.{Bool, true, false}
use mathlib.Core.Logic.{inl, inr}
use mathlib.Core.List.{List, [], ◌∷◌}
use native.Mathlib.Omega.{arith}
use phera.Common.Tests.{if◌then◌else◌, Bool-cases}
use phera.Common.Lists.{In, length, take}

module _ {A : Type 0} (le : A → A → Bool) where
  unfoldable pub insert : A → List A → List A
  insert x [] = x ∷ []
  insert x (y ∷ ys) = let rest = insert x ys in if le x y then x ∷ y ∷ ys else y ∷ rest

  unfoldable pub sort : List A → List A
  sort [] = []
  sort (x ∷ xs) = insert x (sort xs)

  pub data IsSorted : List A → Type 0 where
    none_left : IsSorted []
    one : (x : A) → IsSorted (x ∷ [])
    more : (x y : A) (ys : List A) → le x y ≡ true → IsSorted (y ∷ ys) → IsSorted (x ∷ y ∷ ys)

  module _ (total : (x y : A) → le x y ≡ false → le y x ≡ true) where
    insert-IsSorted_below :
        (x y : A) (ys : List A)
        → le y x ≡ true
        → IsSorted (y ∷ ys)
        → IsSorted (insert x ys)
        → IsSorted (y ∷ insert x ys)
    unfolding insert
    insert-IsSorted_below x y [] l h k = more y x [] l (one x)
    insert-IsSorted_below x y (z ∷ zs) l (more _ _ _ m h) k = elim (Bool-cases (le x z)) [
      | inl q ↦ rw q (more y x (z ∷ zs) l (more x z zs q h))
      | inr q ↦ rw q (more y z (insert x zs) m (rw q at k))
    ]

    IsSorted-tail : (y : A) (ys : List A) → IsSorted (y ∷ ys) → IsSorted ys
    IsSorted-tail y [] h = none_left
    IsSorted-tail y (z ∷ zs) (more _ _ _ _ h) = h

    insert-IsSorted : (x : A) (ys : List A) → IsSorted ys → IsSorted (insert x ys)
    unfolding insert
    insert-IsSorted x [] h = one x
    insert-IsSorted x (y ∷ ys) h = elim (Bool-cases (le x y)) [
      | inl q ↦ rw q (more x y ys q h)
      | inr q ↦ rw q (
          insert-IsSorted_below x y ys (total x y q) h
            (insert-IsSorted x ys (IsSorted-tail y ys h)))
    ]

    pub sort-IsSorted : (xs : List A) → IsSorted (sort xs)
    unfolding sort
    sort-IsSorted [] = none_left
    sort-IsSorted (x ∷ xs) = insert-IsSorted x (sort xs) (sort-IsSorted xs)

  insert-In : (a x : A) (ys : List A) → In a (insert x ys) → In a (x ∷ ys)
  unfolding insert
  insert-In a x [] i = i
  insert-In a x (y ∷ ys) i = ground (arith, insert-In a x ys)

  pub sort-In : (a : A) (xs : List A) → In a (sort xs) → In a xs
  unfolding sort
  sort-In a [] i = i
  sort-In a (x ∷ xs) i = elim (insert-In a x (sort xs) i) [
    | inl e ↦ inl e
    | inr j ↦ inr (sort-In a xs j)
  ]

  In-insert : (a x : A) (ys : List A) → In a (x ∷ ys) → In a (insert x ys)
  unfolding insert
  In-insert a x [] i = i
  In-insert a x (y ∷ ys) i = ground (arith, In-insert a x ys)

  pub In-sort : (a : A) (xs : List A) → In a xs → In a (sort xs)
  unfolding sort
  In-sort a [] i = i
  In-sort a (x ∷ xs) (inl e) = In-insert a x (sort xs) (inl e)
  In-sort a (x ∷ xs) (inr i) = In-insert a x (sort xs) (inr (In-sort a xs i))

  insert-length : (x : A) (ys : List A) → length (insert x ys) ≡ suc (length ys)
  unfolding insert
  insert-length x [] = refl
  insert-length x (y ∷ ys) = ground (arith, insert-length x ys)

  pub length-sort : (xs : List A) → length (sort xs) ≡ length xs
  unfolding sort
  length-sort [] = refl
  length-sort (x ∷ xs) = omega (arith, insert-length x (sort xs), length-sort xs)

  pub IsSorted-take : (n : ℕ) (xs : List A) → IsSorted xs → IsSorted (take n xs)
  IsSorted-take zero xs h = none_left
  IsSorted-take (suc n) [] h = none_left
  IsSorted-take (suc zero) (x ∷ xs) h = one x
  IsSorted-take (suc (suc n)) (x ∷ []) h = one x
  IsSorted-take (suc (suc n)) (x ∷ y ∷ ys) (more _ _ _ l h) =
      more x y (take n ys) l (IsSorted-take (suc n) (y ∷ ys) h)
