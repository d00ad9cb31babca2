-- ===== src/Base/Effects/Gives.antt =====
-- Methods that keep an invariant and answer with something known, and tests that the steps after them
-- may rely on.
use mathlib.Core.Path.{◌≡◌, refl}
use mathlib.Core.Bool.{Bool, true, false}
use printsetu.Base.Effects.{Result, ok, err, Action, pure, when, branch, ◌>>=◌, continue}
use printsetu.Base.Effects.Keeps.{Keeps}
use printsetu.Base.Effects.Reads.{Satisfied}

-- `act` keeps `I`, and what it answers satisfies `Q`.
pub record Gives {E S A : Type 0} (I : S → Type 0) (Q : A → Type 0) (act : Action E S A)
    : Type 0 where
  pub at : (before : S) → I before → I (act before).1 × Satisfied Q (act before).0

Satisfied-imp :
    {E A : Type 0} {Q R : A → Type 0}
    → ((x : A) → Q x → R x)
    → (answer : Result E A) → Satisfied Q answer
    → Satisfied R answer
Satisfied-imp imp (ok x) q = imp x q
Satisfied-imp imp (err e) q = tt

module _ {E S : Type 0} {I : S → Type 0} where
  pub Gives-pure : {A : Type 0} {Q : A → Type 0} (x : A) → Q x → Gives {E = E} I Q (pure x)
  unfolding pure
  Gives-pure x q = record { at = λ before i. (i, q) }

  pub Gives-imp :
      {A : Type 0} {Q R : A → Type 0} (act : Action E S A)
      → ((x : A) → Q x → R x)
      → Gives I Q act
      → Gives I R act
  Gives-imp act imp g = record {
    at = λ before i. let (kept, q) = g.at before i in (kept, Satisfied-imp imp (act before).0 q);
  }

  pub Gives-branch :
      {A : Type 0} {Q : A → Type 0} (b : Bool) (act alt : Action E S A)
      → (b ≡ true → Gives I Q act)
      → (b ≡ false → Gives I Q alt)
      → Gives I Q (branch b act alt)
  unfolding branch
  Gives-branch true act alt g h = record { at = (g refl).at }
  Gives-branch false act alt g h = record { at = (h refl).at }

  continue-Gives :
      {A B : Type 0} {Q : B → Type 0} (next : A → Action E S B)
      → ((x : A) → Gives I Q (next x))
      → (answer : Result E A) (before : S) → I before
      → I (continue answer next before).1 × Satisfied Q (continue answer next before).0
  continue-Gives next later (ok x) before i = (later x).at before i
  continue-Gives next later (err e) before i = (i, tt)

  pub Gives-after :
      {A B : Type 0} {Q : B → Type 0} (act : Action E S A) (next : A → Action E S B)
      → Keeps I act
      → ((x : A) → Gives I Q (next x))
      → Gives I Q (act >>= next)
  unfolding ◌>>=◌
  Gives-after act next first later = record {
    at = λ before i. continue-Gives next later (act before).0 (act before).1 (first.at before i);
  }

  continue-given :
      {A B : Type 0} {Q : A → Type 0} (next : A → Action E S B)
      → ((x : A) → Q x → Keeps I (next x))
      → (answer : Result E A) (before : S) → I before
      → Satisfied Q answer
      → I (continue answer next before).1
  continue-given next later (ok x) before i q = (later x q).at before i
  continue-given next later (err e) before i q = i

  pub Keeps-given :
      {A B : Type 0} {Q : A → Type 0} (act : Action E S A) (next : A → Action E S B)
      → Gives I Q act
      → ((x : A) → Q x → Keeps I (next x))
      → Keeps I (act >>= next)
  unfolding ◌>>=◌
  Keeps-given act next first later = record {
    at = λ before i.
        let (kept, q) = first.at before i in
        continue-given next later (act before).0 (act before).1 kept q;
  }

  -- `if (c)` where `c` matters to what follows.
  pub Keeps-when-if :
      (b : Bool) (act : Action E S (Unit {0})) → (b ≡ true → Keeps I act) → Keeps I (when b act)
  unfolding when
  Keeps-when-if true act k = record { at = (k refl).at }
  Keeps-when-if false act k = record { at = λ before i. i }

  pub Keeps-branch-if :
      {A : Type 0} (b : Bool) (act alt : Action E S A)
      → (b ≡ true → Keeps I act)
      → (b ≡ false → Keeps I alt)
      → Keeps I (branch b act alt)
  unfolding branch
  Keeps-branch-if true act alt k l = record { at = (k refl).at }
  Keeps-branch-if false act alt k l = record { at = (l refl).at }
