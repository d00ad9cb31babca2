-- ===== src/Base/Tables.antt =====
-- A table is the list of its rows, oldest first. These are the calls that the services make of the
-- database: `findFirst` and `findUnique`, `findMany`, `updateMany` and `update`, `deleteMany`, `count`.
use Prim.Native.Nat.{ℕ, ◌+◌}
use mathlib.Core.Path.{◌≡◌, refl, subst}
use mathlib.Core.Logic.{inl, inr}
use mathlib.Core.Bool.{Bool, true, false}
use mathlib.Core.Option.{Option, none, some, some-injective}
use mathlib.Core.List.{List, [], ◌∷◌, ◌++◌}
use native.Mathlib.Omega.{arith}
use printsetu.Base.Tests.{Bool-cases, if◌then◌else◌}
use printsetu.Base.Lists.{All}

module _ {ℓ} {A : Type ℓ} where
  abbrev pub find_first : (A → Bool) → List A → Option A
  find_first p [] = none
  find_first p (x ∷ xs) = if p x then some x else find_first p xs

  abbrev pub find_many : (A → Bool) → List A → List A
  find_many p [] = []
  find_many p (x ∷ xs) = if p x then x ∷ find_many p xs else find_many p xs

  abbrev pub update_many : (A → Bool) → (A → A) → List A → List A
  update_many p f [] = []
  update_many p f (x ∷ xs) = (if p x then f x else x) ∷ update_many p f xs

  abbrev pub delete_many : (A → Bool) → List A → List A
  delete_many p [] = []
  delete_many p (x ∷ xs) = if p x then delete_many p xs else x ∷ delete_many p xs

  abbrev pub count : (A → Bool) → List A → ℕ
  count p [] = 0
  count p (x ∷ xs) = (if p x then 1 else 0) + count p xs

  pub find_first-holds :
      (p : A → Bool) (xs : List A) (x : A) → find_first p xs ≡ some x → p x ≡ true
  find_first-holds p [] x e = cc
  find_first-holds p (y ∷ xs) x e = ground (arith, find_first-holds p xs x)

  pub All-find_first {κ} :
      (P : A → Type κ) (p : A → Bool) (xs : List A) (x : A)
      → All P xs
      → find_first p xs ≡ some x
      → P x
  All-find_first P p [] x h e = cc
  All-find_first P p (y ∷ xs) x (py, h) e = elim (Bool-cases (p y)) [
    | inl t ↦ subst P (some-injective y x (rw t at e)) py
    | inr f ↦ All-find_first P p xs x h (rw f at e)
  ]

  pub All-update_many {κ} :
      (P : A → Type κ) (p : A → Bool) (f : A → A)
      → ((x : A) → P x → p x ≡ true → P (f x))
      → (xs : List A) → All P xs
      → All P (update_many p f xs)
  All-update_many P p f keep [] h = tt
  All-update_many P p f keep (y ∷ xs) (py, h) = elim (Bool-cases (p y)) [
    | inl t ↦ rw t (keep y py t, All-update_many P p f keep xs h)
    | inr n ↦ rw n (py, All-update_many P p f keep xs h)
  ]

  -- An update that takes one predicate to another.
  pub All-update_to {κ μ} :
      (P : A → Type κ) (Q : A → Type μ) (p : A → Bool) (f : A → A)
      → ((x : A) → p x ≡ true → P x → Q (f x))
      → ((x : A) → p x ≡ false → P x → Q x)
      → (xs : List A) → All P xs
      → All Q (update_many p f xs)
  All-update_to P Q p f to same [] h = tt
  All-update_to P Q p f to same (y ∷ xs) (py, h) = elim (Bool-cases (p y)) [
    | inl t ↦ rw t (to y t py, All-update_to P Q p f to same xs h)
    | inr n ↦ rw n (same y n py, All-update_to P Q p f to same xs h)
  ]

  pub All-delete_many {κ} :
      (P : A → Type κ) (p : A → Bool) (xs : List A) → All P xs → All P (delete_many p xs)
  All-delete_many P p [] h = tt
  All-delete_many P p (y ∷ xs) (py, h) = elim (Bool-cases (p y)) [
    | inl t ↦ rw t (All-delete_many P p xs h)
    | inr n ↦ rw n (py, All-delete_many P p xs h)
  ]

module _ {ℓ} {A : Type ℓ} (p q : A → Bool) (f : A → A) where
  -- An update of rows that a search passes over, before and after, does not show in it.
  pub find_many-update_many :
      (xs : List A)
      → ((x : A) → q x ≡ true → (p x ≡ false) × (p (f x) ≡ false))
      → find_many p (update_many q f xs) ≡ find_many p xs
  find_many-update_many [] h = refl
  find_many-update_many (x ∷ xs) h = ground (arith, h x, find_many-update_many xs h)

  -- An update that takes every row of a search out of it.
  pub count-update_many_none :
      (xs : List A)
      → ((x : A) → q x ≡ false → p x ≡ false)
      → ((x : A) → p (f x) ≡ false)
      → count p (update_many q f xs) ≡ 0
  count-update_many_none [] h k = refl
  count-update_many_none (x ∷ xs) h k = ground (arith, h x, k x, count-update_many_none xs h k)

module _ {ℓ} {A : Type ℓ} (p : A → Bool) where
  pub count-append :
      (xs : List A) (y : A) → count p (xs ++ (y ∷ [])) ≡ count p xs + (if p y then 1 else 0)
  count-append [] y = omega arith
  count-append (x ∷ xs) y = omega (arith, count-append xs y)

  pub find_first-append_none :
      (xs : List A) (y : A)
      → count p xs ≡ 0
      → find_first p (xs ++ (y ∷ [])) ≡ (if p y then some y else none)
  find_first-append_none [] y h = refl
  find_first-append_none (x ∷ xs) y h = ground (arith, find_first-append_none xs y)

  pub find_many-append_none :
      (xs : List A) (y : A) → p y ≡ false → find_many p (xs ++ (y ∷ [])) ≡ find_many p xs
  find_many-append_none [] y h = rw h
  find_many-append_none (x ∷ xs) y h = ground (arith, find_many-append_none xs y h)

  pub count_zero_find_many : (xs : List A) → count p xs ≡ 0 → find_many p xs ≡ []
  count_zero_find_many [] h = refl
  count_zero_find_many (x ∷ xs) h = ground (arith, count_zero_find_many xs)
