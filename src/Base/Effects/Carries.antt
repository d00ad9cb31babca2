-- ===== src/Base/Effects/Carries.antt =====
-- Methods that take one predicate of the state to another, whether they return or throw.
use mathlib.Core.Path.{◌≡◌, refl}
use mathlib.Core.Bool.{Bool, true, false}
use printsetu.Base.Effects.{
  Result, ok, err, Action, when, ◌>>=◌, transaction, continue, rolled_back,
}
use printsetu.Base.Effects.Keeps.{Keeps}

pub record Carries {E S A : Type 0} (P I : S → Type 0) (act : Action E S A) : Type 0 where
  pub at : (before : S) → P before → I (act before).1

module _ {E S : Type 0} {P I : S → Type 0} (weaken : (s : S) → P s → I s) where
  pub Carries-weak : {A : Type 0} (act : Action E S A) → Keeps I act → Carries P I act
  Carries-weak act k = record { at = λ before p. k.at before (weaken before p) }

  pub Carries-bind :
      {A B : Type 0} (act : Action E S A) (next : A → Action E S B)
      → Keeps P act
      → ((x : A) → Carries P I (next x))
      → Carries P I (act >>= next)
  unfolding ◌>>=◌
  Carries-bind {A = A} act next first rest = record {
    at = λ before p. go (act before).0 (act before).1 (first.at before p);
  }
    where
      go : (answer : Result E A) (s : S) → P s → I (continue answer next s).1
      go (ok x) s p = (rest x).at s p
      go (err e) s p = weaken s p

  pub Carries-when :
      (b : Bool) (act : Action E S (Unit {0}))
      → (b ≡ true → Carries P I act)
      → Carries P I (when b act)
  unfolding when
  Carries-when true act c = record { at = (c refl).at }
  Carries-when false act c = record { at = weaken }

  pub Carries-transaction :
      {A : Type 0} (act : Action E S A) → Carries P I act → Carries P I (transaction act)
  unfolding transaction
  Carries-transaction {A = A} act c = record {
    at = λ before p. go before p (act before).0 (act before).1 (c.at before p);
  }
    where
      go :
          (before : S)
          → P before
          → (answer : Result E A) (later : S) → I later
          → I (rolled_back before (answer, later)).1
      go before p (ok x) later i = i
      go before p (err e) later i = weaken before p

module _ {E S : Type 0} {P I : S → Type 0} where
  pub Carries-then :
      {A B : Type 0} (act : Action E S A) (next : A → Action E S B)
      → Carries P I act
      → ((x : A) → Keeps I (next x))
      → Carries P I (act >>= next)
  unfolding ◌>>=◌
  Carries-then {A = A} act next first kept = record {
    at = λ before p. go (act before).0 (act before).1 (first.at before p);
  }
    where
      go : (answer : Result E A) (s : S) → I s → I (continue answer next s).1
      go (ok x) s i = (kept x).at s i
      go (err e) s i = i
