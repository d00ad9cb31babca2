-- ===== src/Base/Effects.antt =====
-- A method of a service reads and writes the state, and returns a value or throws. What was written
-- before the exception stays written, unless the method runs inside `$transaction`.
pub mod Keeps
pub mod Yields
pub mod Reads
pub mod Gives
pub mod Carries
use mathlib.Core.Bool.{Bool, true, false}
use mathlib.Core.Option.{Option, none, some}
use mathlib.Core.List.{List, [], ◌∷◌}

pub data Result (E A : Type 0) : Type 0 where
  ok : A → Result E A
  err : E → Result E A

abbrev pub Action : Type 0 → Type 0 → Type 0 → Type 0
Action E S A = S → Result E A × S

module _ {E S : Type 0} where
  unfoldable pub pure : {A : Type 0} → A → Action E S A
  pure a s = (ok a, s)

  unfoldable pub throw : {A : Type 0} → E → Action E S A
  throw e s = (err e, s)

  unfoldable pub gets : {A : Type 0} → (S → A) → Action E S A
  gets f s = (ok (f s), s)

  unfoldable pub modify : (S → S) → Action E S (Unit {0})
  modify f s = (ok tt, f s)

  unfoldable pub throw_if : Bool → E → Action E S (Unit {0})
  throw_if true e s = (err e, s)
  throw_if false e s = (ok tt, s)

  -- `if (!row) throw ...`
  unfoldable pub or_throw : {A : Type 0} → Option A → E → Action E S A
  or_throw none e s = (err e, s)
  or_throw (some a) e s = (ok a, s)

  -- `if (c) await m;`
  unfoldable pub when : Bool → Action E S (Unit {0}) → Action E S (Unit {0})
  when true m s = m s
  when false m s = (ok tt, s)

  -- `if (c) { ... } else { ... }`
  unfoldable pub branch : {A : Type 0} → Bool → Action E S A → Action E S A → Action E S A
  branch true m n s = m s
  branch false m n s = n s

  abbrev pub continue : {A B : Type 0} → Result E A → (A → Action E S B) → Action E S B
  continue (ok a) f s = f a s
  continue (err e) f s = (err e, s)

  infixl 5 ◌>>=◌ ◌>>◌
  -- Opening this opens the other steps too.
  unfoldable pub ◌>>=◌ : {A B : Type 0} → Action E S A → (A → Action E S B) → Action E S B
  unfolding pure throw gets modify throw_if or_throw when branch
  ◌>>=◌ m f s = let (r, s') = m s in continue r f s'

  abbrev pub ◌>>◌ : {A B : Type 0} → Action E S A → Action E S B → Action E S B
  m >> k = m >>= λ _. k

  abbrev pub rolled_back : {A : Type 0} → S → Result E A × S → Result E A × S
  rolled_back s (ok a, s') = (ok a, s')
  rolled_back s (err e, s') = (err e, s)

  -- `prisma.$transaction`: an exception undoes the writes made inside.
  unfoldable pub transaction : {A : Type 0} → Action E S A → Action E S A
  transaction m s = rolled_back s (m s)

  abbrev pub attempted : {A : Type 0} → (E → Action E S A) → Result E A × S → Result E A × S
  attempted handler (ok a, s) = (ok a, s)
  attempted handler (err e, s) = handler e s

  -- `try { m } catch (e) { handler(e) }`
  unfoldable pub catch : {A : Type 0} → Action E S A → (E → Action E S A) → Action E S A
  catch m handler s = attempted handler (m s)

  -- `for (const x of xs) await body(x)`
  unfoldable pub for_each :
      {A : Type 0} → (A → Action E S (Unit {0})) → List A → Action E S (Unit {0})
  unfolding ◌>>=◌
  for_each body [] = pure tt
  for_each body (x ∷ xs) = body x >> for_each body xs
