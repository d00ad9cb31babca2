-- ===== src/Base/Effects/Yields.antt =====
-- What holds once a method has returned, and invariants that a method breaks and restores.
use mathlib.Core.Path.{◌≡◌, refl}
use mathlib.Core.Bool.{Bool, true, false}
use printsetu.Base.Effects.{
  Result, ok, err, Action, modify, ◌>>=◌, transaction, continue, rolled_back,
}
use printsetu.Base.Effects.Keeps.{Keeps}

abbrev pub has_returned : {E A : Type 0} → Result E A → Bool
has_returned (ok x) = true
has_returned (err e) = false

-- Wherever `act` starts, `I` holds when it returns.
pub record Yields {E S A : Type 0} (I : S → Type 0) (act : Action E S A) : Type 0 where
  pub after : (before : S) → has_returned (act before).0 ≡ true → I (act before).1

-- Where `act` starts with `P`, it returns with `I`; an exception may leave neither.
pub record Leads {E S A : Type 0} (P I : S → Type 0) (act : Action E S A) : Type 0 where
  pub after : (before : S) → P before → has_returned (act before).0 ≡ true → I (act before).1

-- `act` may break `I` on its way and returns with it.
abbrev pub Restores : {E S A : Type 0} → (S → Type 0) → Action E S A → Type 0
Restores I act = Leads I I act

module _ {E S : Type 0} {I : S → Type 0} where
  pub Restores-Keeps : {A : Type 0} (act : Action E S A) → Keeps I act → Restores I act
  Restores-Keeps act kept = record { after = λ before i ret. kept.at before i }

  pub Restores-Yields : {A : Type 0} (act : Action E S A) → Yields I act → Restores I act
  Restores-Yields act settled = record { after = λ before i ret. settled.after before ret }

  pub Yields-modify : (next : S → S) → ((s : S) → I (next s)) → Yields I (modify {E = E} next)
  unfolding modify
  Yields-modify next set = record { after = λ before ret. set before }

  -- A transaction that fails puts everything back.
  pub Keeps-transaction-Restores :
      {A : Type 0} (act : Action E S A) → Restores I act → Keeps I (transaction act)
  unfolding transaction
  Keeps-transaction-Restores {A = A} act r = record {
    at = λ before i. go before i (act before).0 (act before).1 (r.after before i);
  }
    where
      go :
          (before : S)
          → I before
          → (answer : Result E A) (later : S) → (has_returned answer ≡ true → I later)
          → I (rolled_back before (answer, later)).1
      go before i (ok x) later h = h refl
      go before i (err e) later h = i

  module _ {A B : Type 0} (act : Action E S A) (next : A → Action E S B) where
    -- The last part of a method settles it, whatever the first part did.
    pub Yields-last : ((x : A) → Yields I (next x)) → Yields I (act >>= next)
    unfolding ◌>>=◌
    Yields-last y = record { after = λ before ret. go (act before).0 (act before).1 ret }
      where
        go :
            (answer : Result E A) (s : S)
            → has_returned (continue answer next s).0 ≡ true
            → I (continue answer next s).1
        go (ok x) s ret = (y x).after s ret
        go (err e) s ret = cc

    pub Leads-last :
        {P : S → Type 0} → Keeps P act → ((x : A) → Leads P I (next x)) → Leads P I (act >>= next)
    unfolding ◌>>=◌
    Leads-last {P = P} kept rest = record {
      after = λ before i ret. go (act before).0 (act before).1 ret (kept.at before i);
    }
      where
        go :
            (answer : Result E A) (s : S)
            → has_returned (continue answer next s).0 ≡ true
            → P s
            → I (continue answer next s).1
        go (ok x) s ret i = (rest x).after s i ret
        go (err e) s ret i = cc

    pub Leads-first :
        {P : S → Type 0} → Leads P I act → ((x : A) → Keeps I (next x)) → Leads P I (act >>= next)
    unfolding ◌>>=◌
    Leads-first first kept = record {
      after = λ before p ret. go (act before).0 (act before).1 ret (first.after before p);
    }
      where
        go :
            (answer : Result E A) (s : S)
            → has_returned (continue answer next s).0 ≡ true
            → (has_returned answer ≡ true → I s)
            → I (continue answer next s).1
        go (ok x) s ret h = (kept x).at s (h refl)
        go (err e) s ret h = cc

module _ {E S : Type 0} {P I : S → Type 0} where
  pub Leads-modify : (next : S → S) → ((s : S) → P s → I (next s)) → Leads P I (modify {E = E} next)
  unfolding modify
  Leads-modify next set = record { after = λ before p ret. set before p }

  pub Leads-transaction :
      {A : Type 0} (act : Action E S A) → Leads P I act → Leads P I (transaction act)
  unfolding transaction
  Leads-transaction {A = A} act y = record {
    after = λ before p ret. go before (act before).0 (act before).1 ret (y.after before p);
  }
    where
      go :
          (before : S) (answer : Result E A) (later : S)
          → has_returned (rolled_back before (answer, later)).0 ≡ true
          → (has_returned answer ≡ true → I later)
          → I (rolled_back before (answer, later)).1
      go before (ok x) later ret h = h refl
      go before (err e) later ret h = cc
