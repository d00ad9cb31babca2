-- ===== src/Base/Keys.antt =====
-- Tables whose rows have a key: the primary key, or another column that the schema declares unique.
use Prim.Native.Nat.{ℕ}
use mathlib.Core.Path.{◌≡◌, refl, sym, ◌∙◌}
use mathlib.Core.Logic.{inl, inr}
use mathlib.Core.Bool.{Bool, ◌&&◌}
use mathlib.Core.Option.{Option, none, some}
use mathlib.Core.List.{List, [], ◌∷◌, ◌++◌}
use native.Mathlib.Omega.{arith}
use printsetu.Base.Tests.{◌==◌, Bool-cases, if◌then◌else◌, ==_iff}
use printsetu.Base.Lists.{All}
use printsetu.Base.Tables.{find_first, update_many, delete_many, count}

abbrev pub map_option {ℓ κ} : {A : Type ℓ} {B : Type κ} → (A → B) → Option A → Option B
map_option f none = none
map_option f (some a) = some (f a)

abbrev pub or_else {ℓ} : {A : Type ℓ} → Option A → Option A → Option A
or_else none o = o
or_else (some a) o = some a

module _ {ℓ} {A : Type ℓ} (key : A → ℕ) where
  abbrev pub by : ℕ → A → Bool
  by k x = key x == k

  -- No two rows share a key.
  abbrev pub UniqueKeys : List A → Type ℓ
  UniqueKeys [] = Unit
  UniqueKeys (x ∷ xs) = (find_first (by (key x)) xs ≡ none) × UniqueKeys xs

  abbrev pub KeepsKey : (A → A) → Type ℓ
  KeepsKey f = (x : A) → key (f x) ≡ key x

  pub find_first-update_many :
      (p : A → Bool) (f : A → A) (k : ℕ) (xs : List A)
      → KeepsKey f
      → find_first (by k) (update_many p f xs)
        ≡ map_option (λ x. if p x then f x else x) (find_first (by k) xs)
  find_first-update_many p f k [] keep = refl
  find_first-update_many p f k (x ∷ xs) keep =
      ground (arith, keep x, find_first-update_many p f k xs keep)

  pub UniqueKeys-update_many :
      (p : A → Bool) (f : A → A) (xs : List A)
      → KeepsKey f
      → UniqueKeys xs
      → UniqueKeys (update_many p f xs)
  UniqueKeys-update_many p f [] keep u = tt
  UniqueKeys-update_many p f (x ∷ xs) keep (fresh, u) = (
    ground (arith, keep x, find_first-update_many p f (key x) xs keep),
    UniqueKeys-update_many p f xs keep u,
  )

  pub count-eq-zero :
      (k : ℕ) (q : A → Bool) (xs : List A)
      → find_first (by k) xs ≡ none
      → count (λ x. by k x && q x) xs ≡ 0
  count-eq-zero k q [] e = refl
  count-eq-zero k q (x ∷ xs) e = ground (arith, count-eq-zero k q xs)

  pub count-by :
      (k : ℕ) (q : A → Bool) (xs : List A)
      → UniqueKeys xs
      → count (λ x. by k x && q x) xs
        ≡ elim (find_first (by k) xs) [ none ↦ 0 | some x ↦ if q x then 1 else 0 ]
  count-by k q [] u = refl
  count-by k q (x ∷ xs) (fresh, u) =
      ground (arith, ==_iff (key x) k, count-eq-zero k q xs, count-by k q xs u)

  pub find_first-append :
      (k : ℕ) (xs ys : List A)
      → find_first (by k) (xs ++ ys) ≡ or_else (find_first (by k) xs) (find_first (by k) ys)
  find_first-append k [] ys = refl
  find_first-append k (x ∷ xs) ys = ground (arith, find_first-append k xs ys)

  pub UniqueKeys-append :
      (xs : List A) (y : A)
      → UniqueKeys xs
      → find_first (by (key y)) xs ≡ none
      → UniqueKeys (xs ++ (y ∷ []))
  UniqueKeys-append [] y u fresh = (refl, tt)
  UniqueKeys-append (x ∷ xs) y (old, u) fresh = (
    ground (arith, find_first-append (key x) xs (y ∷ [])),
    UniqueKeys-append xs y u (ground arith),
  )

  find_first-delete_none :
      (p : A → Bool) (k : ℕ) (xs : List A)
      → find_first (by k) xs ≡ none
      → find_first (by k) (delete_many p xs) ≡ none
  find_first-delete_none p k [] e = refl
  find_first-delete_none p k (x ∷ xs) e = ground (arith, find_first-delete_none p k xs)

  pub find_first-delete_many :
      (p : A → Bool) (k : ℕ) (xs : List A)
      → UniqueKeys xs
      → find_first (by k) (delete_many p xs)
        ≡ elim (find_first (by k) xs) [ none ↦ none | some x ↦ if p x then none else some x ]
  find_first-delete_many p k [] u = refl
  find_first-delete_many p k (x ∷ xs) (fresh, u) = elim (Bool-cases (key x == k)) [
    | inl same ↦
        let e : key x ≡ k = (==_iff (key x) k).0 same in
        let gone = find_first-delete_none p k xs (rw e at fresh) in ground (arith, gone)
    | inr other ↦ ground (arith, find_first-delete_many p k xs u)
  ]

  pub UniqueKeys-delete_many :
      (p : A → Bool) (xs : List A) → UniqueKeys xs → UniqueKeys (delete_many p xs)
  UniqueKeys-delete_many p [] u = u
  UniqueKeys-delete_many p (x ∷ xs) (fresh, u) = elim (Bool-cases (p x)) [
    | inl t ↦ rw t (UniqueKeys-delete_many p xs u)
    | inr f ↦ rw f (find_first-delete_none p (key x) xs fresh, UniqueKeys-delete_many p xs u)
  ]

  found-cons :
      (y : A) (ys xs : List A)
      → find_first (by (key y)) xs ≡ none
      → All (λ x. find_first (by (key x)) xs ≡ some x) ys
      → All (λ x. find_first (by (key x)) (y ∷ xs) ≡ some x) ys
  found-cons y [] xs fresh h = tt
  found-cons y (z ∷ ys) xs fresh (e, h) = (
    elim (Bool-cases (key y == key z)) [
      | inl same ↦
          let e' : key y ≡ key z = (==_iff (key y) (key z)).0 same in cc (sym (rw e' at fresh) ∙ e)
      | inr other ↦ rw other e
    ],
    found-cons y ys xs fresh h,
  )

  -- Every row is the one that its key finds.
  pub All-found : (xs : List A) → UniqueKeys xs → All (λ x. find_first (by (key x)) xs ≡ some x) xs
  All-found [] u = tt
  All-found (x ∷ xs) (fresh, u) =
      (rw ((==_iff (key x) (key x)).1 refl) refl, found-cons x xs xs fresh (All-found xs u))
