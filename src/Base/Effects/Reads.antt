-- ===== src/Base/Effects/Reads.antt =====
-- Methods that only read, and what their answers satisfy.
use mathlib.Core.Path.{◌≡◌, refl, sym, subst}
use mathlib.Core.Bool.{Bool, true, false}
use mathlib.Core.Option.{Option, none, some}
use printsetu.Base.Effects.{
  Result, ok, err, Action, pure, gets, or_throw, throw_if, ◌>>=◌, continue,
}

abbrev pub Satisfied : {E A : Type 0} → (A → Type 0) → Result E A → Type 0
Satisfied Q (ok x) = Q x
Satisfied Q (err e) = Unit

-- From the state `here` the method leaves the state alone, and what it answers satisfies `Q`.
pub record Reads {E S A : Type 0} (here : S) (Q : A → Type 0) (act : Action E S A) : Type 0 where
  pub same : (act here).1 ≡ here
  pub answer : Satisfied Q (act here).0

module _ {E S : Type 0} {here : S} where
  pub Reads-pure : {A : Type 0} {Q : A → Type 0} (x : A) → Q x → Reads {E = E} here Q (pure x)
  unfolding pure
  Reads-pure x q = record { same = refl; answer = q }

  pub Reads-gets :
      {A : Type 0} {Q : A → Type 0} (f : S → A) → Q (f here) → Reads {E = E} here Q (gets f)
  unfolding gets
  Reads-gets f q = record { same = refl; answer = q }

  pub Reads-throw_if : (b : Bool) (e : E) → Reads here (λ _. b ≡ false) (throw_if b e)
  unfolding throw_if
  Reads-throw_if true e = record { same = refl; answer = tt }
  Reads-throw_if false e = record { same = refl; answer = refl }

  pub Reads-or_throw :
      {A : Type 0} (o : Option A) (e : E) → Reads here (λ x. o ≡ some x) (or_throw o e)
  unfolding or_throw
  Reads-or_throw none e = record { same = refl; answer = tt }
  Reads-or_throw (some x) e = record { same = refl; answer = refl }

  pub Reads-bind :
      {A B : Type 0} {Q : A → Type 0} {R : B → Type 0} (act : Action E S A)
      (next : A → Action E S B)
      → Reads here Q act
      → ((x : A) → Q x → Reads here R (next x))
      → Reads here R (act >>= next)
  unfolding ◌>>=◌
  Reads-bind {A = A} {Q = Q} {R = R} act next first rest =
      let g = go (act here).0 (act here).1 first.same first.answer in
      record { same = g.same; answer = g.answer }
    where
      go :
          (answer : Result E A) (later : S)
          → later ≡ here
          → Satisfied Q answer
          → Reads here R (λ _. continue answer next later)
      go (ok x) later e q =
          subst (λ s. Reads here R (λ _. next x s)) (sym e)
            (record { same = (rest x q).same; answer = (rest x q).answer })
      go (err f) later e q = record { same = e; answer = tt }

  -- What a reading method answers is what it answers.
  pub Reads-self :
      {A : Type 0} {Q : A → Type 0} (act : Action E S A)
      → Reads here Q act
      → Reads here (λ x. act here ≡ (ok x, here)) act
  Reads-self {A = A} act r = record {
    same = r.same;
    answer = go (act here).0 (act here).1 r.same refl;
  }
    where
      go :
          (answer : Result E A) (later : S)
          → later ≡ here
          → act here ≡ (answer, later)
          → Satisfied (λ x. act here ≡ (ok x, here)) answer
      go (ok x) later e f = rw f (rw e)
      go (err x) later e f = tt

  pub Reads-imp :
      {A : Type 0} {Q R : A → Type 0} (act : Action E S A)
      → ((x : A) → Q x → R x)
      → Reads here Q act
      → Reads here R act
  Reads-imp {A = A} {Q = Q} {R = R} act imp r = record {
    same = r.same;
    answer = go (act here).0 r.answer;
  }
    where
      go : (answer : Result E A) → Satisfied Q answer → Satisfied R answer
      go (ok x) q = imp x q
      go (err e) q = tt
