-- ===== src/Base/Effects/Keeps.antt =====
-- Invariants of methods, one rule for each way to build a method.
use mathlib.Core.Bool.{Bool, true, false}
use mathlib.Core.Option.{Option, none, some}
use mathlib.Core.List.{List, [], ◌∷◌}
use printsetu.Base.Effects.{
  Result, ok, err, Action, pure, throw, gets, modify, throw_if, or_throw, when, branch, ◌>>=◌,
  transaction, for_each, continue, rolled_back, attempted, catch,
}

-- `act` keeps `I`, whether it returns or throws.
pub record Keeps {E S A : Type 0} (I : S → Type 0) (act : Action E S A) : Type 0 where
  pub at : (before : S) → I before → I (act before).1

rolled_back-Keeps :
    {E S A : Type 0} (I : S → Type 0) (before : S) (answer : Result E A) (after : S)
    → I before
    → I after
    → I (rolled_back before (answer, after)).1
rolled_back-Keeps I before (ok x) after i k = k
rolled_back-Keeps I before (err e) after i k = i

module _ {E S : Type 0} {I : S → Type 0} where
  pub Keeps-pure : {A : Type 0} (x : A) → Keeps I (pure {E = E} x)
  unfolding pure
  Keeps-pure x = record { at = λ before i. i }

  pub Keeps-throw : {A : Type 0} (e : E) → Keeps I (throw {A = A} e)
  unfolding throw
  Keeps-throw e = record { at = λ before i. i }

  pub Keeps-gets : {A : Type 0} (next : S → A) → Keeps I (gets {E = E} next)
  unfolding gets
  Keeps-gets next = record { at = λ before i. i }

  pub Keeps-modify :
      (next : S → S) → ((before : S) → I before → I (next before)) → Keeps I (modify {E = E} next)
  unfolding modify
  Keeps-modify next i = record { at = i }

  pub Keeps-throw_if : (b : Bool) (e : E) → Keeps I (throw_if b e)
  unfolding throw_if
  Keeps-throw_if true e = record { at = λ before i. i }
  Keeps-throw_if false e = record { at = λ before i. i }

  pub Keeps-or_throw : {A : Type 0} (o : Option A) (e : E) → Keeps I (or_throw o e)
  unfolding or_throw
  Keeps-or_throw none e = record { at = λ before i. i }
  Keeps-or_throw (some x) e = record { at = λ before i. i }

  pub Keeps-when : (b : Bool) (act : Action E S (Unit {0})) → Keeps I act → Keeps I (when b act)
  unfolding when
  Keeps-when true act i = record { at = i.at }
  Keeps-when false act i = record { at = λ before p. p }

  pub Keeps-skip : (act : Action E S (Unit {0})) → Keeps I (when false act)
  unfolding when
  Keeps-skip act = record { at = λ before i. i }

  pub Keeps-branch :
      {A : Type 0} (b : Bool) (act alt : Action E S A)
      → Keeps I act
      → Keeps I alt
      → Keeps I (branch b act alt)
  unfolding branch
  Keeps-branch true act alt i k = record { at = i.at }
  Keeps-branch false act alt i k = record { at = k.at }

  continue-Keeps :
      {A B : Type 0} (next : A → Action E S B)
      → ((x : A) → Keeps I (next x))
      → (answer : Result E A) (before : S) → I before
      → I (continue answer next before).1
  continue-Keeps next later (ok x) before i = (later x).at before i
  continue-Keeps next later (err e) before i = i

  pub Keeps-bind :
      {A B : Type 0} (act : Action E S A) (next : A → Action E S B)
      → Keeps I act
      → ((x : A) → Keeps I (next x))
      → Keeps I (act >>= next)
  unfolding ◌>>=◌
  Keeps-bind act next first later = record {
    at = λ before i. continue-Keeps next later (act before).0 (act before).1 (first.at before i);
  }

  pub Keeps-transaction :
      {A : Type 0} (act : Action E S A) → Keeps I act → Keeps I (transaction act)
  unfolding transaction
  Keeps-transaction act k = record {
    at = λ before i.
        let (answer, after) = act before in
        rolled_back-Keeps I before answer after i (k.at before i);
  }

  attempted-Keeps :
      {A : Type 0} (handler : E → Action E S A) (answer : Result E A) (before : S)
      → ((e : E) → Keeps I (handler e))
      → I before
      → I (attempted handler (answer, before)).1
  attempted-Keeps handler (ok x) before k i = i
  attempted-Keeps handler (err e) before k i = (k e).at before i

  pub Keeps-catch :
      {A : Type 0} (act : Action E S A) (handler : E → Action E S A)
      → Keeps I act
      → ((e : E) → Keeps I (handler e))
      → Keeps I (catch act handler)
  unfolding catch
  Keeps-catch act handler k kh = record {
    at = λ before i.
        let (answer, after) = act before in attempted-Keeps handler answer after kh (k.at before i);
  }

  pub Keeps-for_each :
      {A : Type 0} (body : A → Action E S (Unit {0})) (xs : List A)
      → ((x : A) → Keeps I (body x))
      → Keeps I (for_each body xs)
  unfolding for_each
  Keeps-for_each body [] k = Keeps-pure tt
  Keeps-for_each body (x ∷ xs) k =
      Keeps-bind (body x) (λ _. for_each body xs) (k x) (λ _. Keeps-for_each body xs k)

pub ruleset keeps_rules = (
  Keeps-pure, Keeps-throw, Keeps-gets, Keeps-modify, Keeps-throw_if, Keeps-or_throw, Keeps-when,
  Keeps-branch, Keeps-bind, Keeps-transaction, Keeps-catch, Keeps-for_each,
)
