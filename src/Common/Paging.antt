-- ===== src/Common/Paging.antt =====
-- `ORDER BY … LIMIT n`: the first n of the rows in their order.
use Prim.Native.Nat.{ℕ, zero, suc}
use mathlib.Core.Path.{◌≡◌, refl, ap}
use mathlib.Core.Bool.{Bool, true, false}
use mathlib.Core.Logic.{◌⊎◌, inl, inr}
use mathlib.Core.List.{List, [], ◌∷◌, ◌++◌, Perm}
use mathlib.Core.List.Perm
use native.Mathlib.Omega.{arith}
use phera.Common.Tests.{Bool-cases}
use phera.Common.Lists.{In, length, take}
use phera.Common.Sort.{insert, sort, IsSorted, more, sort-IsSorted, IsSorted-take}

unfoldable pub drop {ℓ} : {A : Type ℓ} → ℕ → List A → List A
drop zero xs = xs
drop (suc n) [] = []
drop (suc n) (x ∷ xs) = drop n xs

module _ {A : Type 0} where
  take-drop : (n : ℕ) (xs : List A) → take n xs ++ drop n xs ≡ xs
  unfolding drop
  take-drop zero xs = refl
  take-drop (suc n) [] = refl
  take-drop (suc n) (x ∷ xs) = ap (λ ys. x ∷ ys) (take-drop n xs)

  drop-In : (a : A) (n : ℕ) (xs : List A) → In a (drop n xs) → In a xs
  unfolding drop
  drop-In a zero xs i = i
  drop-In a (suc n) [] i = i
  drop-In a (suc n) (x ∷ xs) i = inr (drop-In a n xs i)

  full_take : (n : ℕ) (xs : List A) → (length (take n xs) ≡ n) ⊎ (drop n xs ≡ [])
  unfolding drop
  full_take zero xs = inl refl
  full_take (suc n) [] = inr refl
  full_take (suc n) (x ∷ xs) = elim (full_take n xs) [
    | inl p ↦ inl (omega (arith, p))
    | inr q ↦ inr q
  ]

module _ {A : Type 0} (le : A → A → Bool) where
  insert-Perm : (x : A) (ys : List A) → Perm (insert le x ys) (x ∷ ys)
  unfolding insert
  insert-Perm x [] = Perm.refl (x ∷ [])
  insert-Perm x (y ∷ ys) = elim (Bool-cases (le x y)) [
    | inl q ↦ rw q (Perm.refl (x ∷ y ∷ ys))
    | inr q ↦ rw q (Perm.trans (Perm.cons y (insert-Perm x ys)) (Perm.swap x y ys))
  ]

  sort-Perm : (xs : List A) → Perm (sort le xs) xs
  unfolding sort
  sort-Perm [] = Perm.refl []
  sort-Perm (x ∷ xs) = Perm.trans (insert-Perm x (sort le xs)) (Perm.cons x (sort-Perm xs))

  -- `page` has n of the rows, or all of them, in order, and every other row may stand after each
  -- row of it.
  pub record IsFirst (n : ℕ) (rows page : List A) : Type 0 where
    pub rest : List A
    pub all : Perm (page ++ rest) rows
    pub sorted : IsSorted le page
    pub least : (x y : A) → In x page → In y rest → le x y ≡ true
    pub full : (length page ≡ n) ⊎ (rest ≡ [])

  module _ (total : (x y : A) → le x y ≡ false → le y x ≡ true)
      (le_trans : (x y z : A) → le x y ≡ true → le y z ≡ true → le x z ≡ true) where
    below : (x y : A) (ys : List A) → IsSorted le (x ∷ ys) → In y ys → le x y ≡ true
    below x y [] h i = elim i [ ]
    below x y (z ∷ zs) (more _ _ _ l h) (inl p) = rw p l
    below x y (z ∷ zs) (more _ _ _ l h) (inr i) = le_trans x z y l (below z y zs h i)

    tail-IsSorted : (x : A) (ys : List A) → IsSorted le (x ∷ ys) → IsSorted le ys
    tail-IsSorted x [] h = IsSorted.none_left
    tail-IsSorted x (y ∷ ys) (more _ _ _ l h) = h

    take-least :
        (n : ℕ) (xs : List A) (x y : A)
        → IsSorted le xs
        → In x (take n xs)
        → In y (drop n xs)
        → le x y ≡ true
    unfolding drop
    take-least zero xs x y h i j = elim i [ ]
    take-least (suc n) [] x y h i j = elim i [ ]
    take-least (suc n) (z ∷ zs) x y h (inl p) j = rw p (below z y zs h (drop-In y n zs j))
    take-least (suc n) (z ∷ zs) x y h (inr i) j = take-least n zs x y (tail-IsSorted z zs h) i j

    pub take-IsFirst : (n : ℕ) (rows : List A) → IsFirst n rows (take n (sort le rows))
    take-IsFirst n rows =
        let in_order = sort le rows in
        record {
          rest = drop n in_order;
          all = rw (take-drop n in_order) (sort-Perm rows);
          sorted = IsSorted-take le n in_order (sort-IsSorted le total rows);
          least = λ x y. take-least n in_order x y (sort-IsSorted le total rows);
          full = full_take n in_order;
        }
