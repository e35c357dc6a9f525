-- ===== src/Common/Lists.antt =====
-- Lists over native numbers, and the list functions that stand for Python's and for a table's.
use Prim.Native.Nat.{ℕ, zero, suc, ◌+◌, ◌≤◌}
use mathlib.Core.Path.{◌≡◌, refl, sym, ap, ◌∙◌}
use mathlib.Core.Bool.{Bool, true, false, ◌||◌}
use mathlib.Core.Logic.{◌⊎◌, inl, inr}
use mathlib.Core.List.{List, [], ◌∷◌, ◌++◌}
use mathlib.Core.Option.{Option, none, some}
use native.Mathlib.Omega.{arith}
use phera.Common.Tests.{if◌then◌else◌, Bool-cases}

module _ {ℓ} {A : Type ℓ} where
  abbrev pub length : List A → ℕ
  length [] = 0
  length (x ∷ xs) = suc (length xs)

  abbrev pub take : ℕ → List A → List A
  take zero xs = []
  take (suc n) [] = []
  take (suc n) (x ∷ xs) = x ∷ take n xs

  -- `first()`, `LIMIT 1`
  abbrev pub first : List A → Option A
  first [] = none
  first (x ∷ xs) = some x

  -- `WHERE`: the rows that pass, in their order.
  unfoldable pub where_ : (A → Bool) → List A → List A
  where_ p [] = []
  where_ p (x ∷ xs) = if p x then x ∷ where_ p xs else where_ p xs

  -- `UPDATE … WHERE`, or a write through an object to its row.
  unfoldable pub update_rows : (A → Bool) → (A → A) → List A → List A
  update_rows p f [] = []
  update_rows p f (x ∷ xs) = (if p x then f x else x) ∷ update_rows p f xs

  unfoldable pub any : (A → Bool) → List A → Bool
  any p [] = false
  any p (x ∷ xs) = p x || any p xs

module _ {ℓ} {A : Type ℓ} where
  pub length-append : (xs ys : List A) → length (xs ++ ys) ≡ length xs + length ys
  length-append [] ys = omega arith
  length-append (x ∷ xs) ys = omega (arith, length-append xs ys)

pub some-injective {ℓ} : {A : Type ℓ} {a b : A} → some a ≡ some b → a ≡ b
some-injective h = cc

module _ {A : Type 0} where
  abbrev pub In : A → List A → Type 0
  In a [] = ⊥
  In a (x ∷ xs) = (a ≡ x) ⊎ In a xs

  pub In-where_ : (p : A → Bool) (a : A) (xs : List A) → In a xs → p a ≡ true → In a (where_ p xs)
  unfolding where_
  In-where_ p a [] i h = i
  In-where_ p a (x ∷ xs) (inl e) h = ground arith
  In-where_ p a (x ∷ xs) (inr i) h = ground (arith, In-where_ p a xs i h)

  -- The rows that pass do pass, and stood in the table.
  pub where_-In : (p : A → Bool) (a : A) (xs : List A) → In a (where_ p xs) → In a xs × (p a ≡ true)
  unfolding where_
  where_-In p a [] i = elim i [ ]
  where_-In p a (x ∷ xs) i = ground (arith, where_-In p a xs)

  abbrev pub All : (A → Type 0) → List A → Type 0
  All P [] = Unit
  All P (x ∷ xs) = P x × All P xs

  pub All-where_ :
      (P : A → Type 0) (p : A → Bool) (xs : List A)
      → ((x : A) → In x xs → p x ≡ true → P x)
      → All P (where_ p xs)
  unfolding where_
  All-where_ P p [] h = tt
  All-where_ P p (x ∷ xs) h = elim (Bool-cases (p x)) [
    | inl q ↦ rw q (h x (inl refl) q, All-where_ P p xs (λ y i. h y (inr i)))
    | inr q ↦ rw q (All-where_ P p xs (λ y i. h y (inr i)))
  ]

  pub first-where_ :
      (p : A → Bool) (a : A) (xs : List A) → first (where_ p xs) ≡ some a → p a ≡ true
  unfolding where_
  first-where_ p a [] h = absurd cc
  first-where_ p a (x ∷ xs) h = elim (Bool-cases (p x)) [
    | inl q ↦ ap p (sym (some-injective (rw q at h))) ∙ q
    | inr q ↦ first-where_ p a xs (rw q at h)
  ]

  pub In-append_right : (a : A) (xs ys : List A) → In a ys → In a (xs ++ ys)
  In-append_right a [] ys i = i
  In-append_right a (x ∷ xs) ys i = inr (In-append_right a xs ys i)

  pub In-append_left : (a : A) (xs ys : List A) → In a xs → In a (xs ++ ys)
  In-append_left a [] ys i = elim i [ ]
  In-append_left a (x ∷ xs) ys (inl e) = inl e
  In-append_left a (x ∷ xs) ys (inr i) = inr (In-append_left a xs ys i)

  pub length-where_-le : (p : A → Bool) (xs : List A) → length (where_ p xs) ≤ length xs
  unfolding where_
  length-where_-le p [] = omega arith
  length-where_-le p (x ∷ xs) = ground (arith, length-where_-le p xs)

  pub In-append : (a : A) (xs ys : List A) → In a (xs ++ ys) → In a xs ⊎ In a ys
  In-append a [] ys i = inr i
  In-append a (x ∷ xs) ys (inl e) = inl (inl e)
  In-append a (x ∷ xs) ys (inr i) = elim (In-append a xs ys i) [
    | inl j ↦ inl (inr j)
    | inr j ↦ inr j
  ]

  pub In-take : (a : A) (n : ℕ) (xs : List A) → In a (take n xs) → In a xs
  In-take a zero xs i = elim i [ ]
  In-take a (suc n) [] i = i
  In-take a (suc n) (x ∷ xs) (inl e) = inl e
  In-take a (suc n) (x ∷ xs) (inr i) = inr (In-take a n xs i)

  pub length-take-le : (n : ℕ) (xs : List A) → length (take n xs) ≤ n
  length-take-le zero xs = omega arith
  length-take-le (suc n) [] = omega arith
  length-take-le (suc n) (x ∷ xs) = omega (arith, length-take-le n xs)

  pub take_all : (n : ℕ) (xs : List A) → length xs ≤ n → take n xs ≡ xs
  take_all zero [] h = refl
  take_all zero (x ∷ xs) h = absurd (omega arith)
  take_all (suc n) [] h = refl
  take_all (suc n) (x ∷ xs) h = ap (λ ys. x ∷ ys) (take_all n xs (omega arith))

  pub where_-append :
      (p : A → Bool) (xs ys : List A) → where_ p (xs ++ ys) ≡ where_ p xs ++ where_ p ys
  unfolding where_
  where_-append p [] ys = refl
  where_-append p (x ∷ xs) ys = ground (arith, where_-append p xs ys)

  -- A write that does not touch what the test reads.
  pub where_-update_rows :
      (p q : A → Bool) (f : A → A) (xs : List A)
      → ((x : A) → p (f x) ≡ p x)
      → where_ p (update_rows q f xs) ≡ update_rows q f (where_ p xs)
  unfolding where_ update_rows
  where_-update_rows p q f [] h = refl
  where_-update_rows p q f (x ∷ xs) h = ground (arith, h x, where_-update_rows p q f xs h)

  -- Where one test passes no row and says the same as the other, neither does.
  pub where_-none :
      (p q : A → Bool) (xs : List A) → ((x : A) → p x ≡ q x) → any p xs ≡ false → where_ q xs ≡ []
  unfolding where_ any
  where_-none p q [] h n = refl
  where_-none p q (x ∷ xs) h n = ground (arith, h x, where_-none p q xs h)

  pub where_-one : (p : A → Bool) (x : A) → p x ≡ true → where_ p (x ∷ []) ≡ x ∷ []
  unfolding where_
  where_-one p x h = rw h refl

  pub update_rows-one :
      (p : A → Bool) (f : A → A) (x : A) → p x ≡ true → update_rows p f (x ∷ []) ≡ f x ∷ []
  unfolding update_rows
  update_rows-one p f x h = rw h refl

  pub any-append : (p : A → Bool) (xs ys : List A) → any p (xs ++ ys) ≡ any p xs || any p ys
  unfolding any
  any-append p [] ys = refl
  any-append p (x ∷ xs) ys = ground (arith, any-append p xs ys)

  pub update_rows-none :
      (p : A → Bool) (f : A → A) (xs : List A) → any p xs ≡ false → update_rows p f xs ≡ xs
  unfolding update_rows any
  update_rows-none p f [] h = refl
  update_rows-none p f (x ∷ xs) h = ground (arith, update_rows-none p f xs)
