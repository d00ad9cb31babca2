-- ===== src/Print/Quote/Rates.antt =====
-- The pages and the rates that `createQuote` gathers by combination.
use printsetu.Base.{
  ℕ, ◌+◌, true, Option, none, some, List, [], ◌∷◌, sum_of, All, is_some, find_many, if◌then◌else◌,
  ◌≡◌, refl, inl, inr, Bool-cases, arith, ok,
}
use mathlib.Core.Path.{subst}
use mathlib.Core.Option.{some-injective}
use printsetu.Base.Effects.Reads.{
  Reads, Reads-pure, Reads-gets, Reads-or_throw, Reads-bind, Reads-self, Reads-imp,
}
use printsetu.Print.Types.{PricingCombo, combo_eq, combo_eq_iff}
use printsetu.Print.Db.{Db}
use printsetu.Pricing.Service.{ResolvedRate, resolve_rate, get_active_rate}
use printsetu.Print.Quote.{Line, Rates, add_pages, pages_by_combo, add_rate, add_rates, put_rate}

-- All pages of a combination.
abbrev pub combined : PricingCombo → List Line → ℕ
combined c lines =
    sum_of (λ (l : Line). l.billable_pages)
      (find_many (λ (l : Line). combo_eq l.input.combo c) lines)

add_pages-combined :
    (pages : PricingCombo → ℕ) (lines : List Line) (c : PricingCombo)
    → add_pages pages lines c ≡ pages c + combined c lines
unfolding add_pages
add_pages-combined pages [] c = omega arith
add_pages-combined pages (l ∷ ls) c = ground (
  arith,
  add_pages-combined (λ d. if combo_eq l.input.combo d then pages d + l.billable_pages else pages d)
      ls c,
)

-- The loop over the lines adds up each combination.
pub pages_by_combo-combined :
    (lines : List Line) (c : PricingCombo) → pages_by_combo lines c ≡ combined c lines
unfolding pages_by_combo
pages_by_combo-combined lines c = omega (arith, add_pages-combined (λ d. 0) lines c)

module _ (shop : ℕ) (pages : PricingCombo → ℕ) (db : Db) where
  -- Every gathered rate is what the pricing service answers for the pages of its combination.
  pub record IsRated (rates : Rates) : Type 0 where
    pub rated :
        (c : PricingCombo) (r : ResolvedRate)
        → rates c ≡ some r
        → resolve_rate shop c (pages c) db ≡ (ok r, db)

  resolve_rate-Reads : (c : PricingCombo) (n : ℕ) → Reads db (λ r. Unit {0}) (resolve_rate shop c n)
  unfolding resolve_rate get_active_rate
  resolve_rate-Reads c n =
      Reads-bind {Q = λ r. Unit {0}} _ _
        (Reads-bind {Q = λ o. Unit {0}} _ _ (Reads-gets _ tt)
          (λ o _. Reads-imp _ (λ _ _. tt) (Reads-or_throw _ _)))
        (λ r _. Reads-bind {Q = λ o. Unit {0}} _ _ (Reads-gets _ tt) (λ ts _. Reads-pure _ tt))

  resolve-Reads :
      (c : PricingCombo) (n : ℕ)
      → Reads db (λ r. resolve_rate shop c n db ≡ (ok r, db)) (resolve_rate shop c n)
  resolve-Reads c n = Reads-self _ (resolve_rate-Reads c n)

  -- A later round of the loop loses no rate.
  abbrev Extends : Rates → Rates → Type 0
  Extends old new = (c : PricingCombo) → is_some (old c) ≡ true → is_some (new c) ≡ true

  put-IsRated :
      (rates : Rates) (c : PricingCombo) (r : ResolvedRate)
      → IsRated rates
      → resolve_rate shop c (pages c) db ≡ (ok r, db)
      → IsRated (put_rate c r rates)
  put-IsRated rates c r old new = record {
    rated = λ d q h. elim (Bool-cases (combo_eq c d)) [
      | inl same ↦
          let same_rate : some r ≡ some q = rw same at h in
          subst (λ x. resolve_rate shop x (pages x) db ≡ (ok q, db)) ((combo_eq_iff c d).0 same)
            (subst (λ x. resolve_rate shop c (pages c) db ≡ (ok x, db))
              (some-injective r q same_rate) new)
      | inr differs ↦ old.rated d q (rw differs at h)
    ];
  }

  put-Extends :
      (rates : Rates) (c : PricingCombo) (r : ResolvedRate) → Extends rates (put_rate c r rates)
  put-Extends rates c r d h = ground (arith, h)

  abbrev Next : Rates → PricingCombo → Rates → Type 0
  Next rates c next = IsRated next × Extends rates next × (is_some (next c) ≡ true)

  add_rate-Reads :
      (rates : Rates) (c : PricingCombo) (o : Option ResolvedRate)
      → rates c ≡ o
      → IsRated rates
      → Reads db (Next rates c) (add_rate shop pages rates c o)
  unfolding add_rate
  add_rate-Reads rates c (some r) e k = Reads-pure rates (k, (λ d h. h), rw e)
  add_rate-Reads rates c none e k = Reads-bind _ _ (resolve-Reads c (pages c)) (λ r q.
      Reads-pure _
        (put-IsRated rates c r k q, put-Extends rates c r, rw ((combo_eq_iff c c).1 refl)))

  -- After the loop every line has its rate.
  pub add_rates-Reads :
      (rates : Rates) (lines : List Line)
      → IsRated rates
      → Reads db
          (λ all'.
            IsRated all'
            × Extends rates all'
            × All (λ (l : Line). is_some (all' l.input.combo) ≡ true) lines)
          (add_rates shop pages rates lines)
  unfolding add_rates
  add_rates-Reads rates [] k = Reads-pure rates (k, (λ d h. h), tt)
  add_rates-Reads rates (l ∷ ls) k =
      Reads-bind _ _ (add_rate-Reads rates l.input.combo (rates l.input.combo) refl k)
        (λ next (k', grows, here).
          Reads-imp _
            (λ all' (k'', grows', rest).
              (k'', (λ d h. grows' d (grows d h)), (grows' l.input.combo here, rest)))
            (add_rates-Reads next ls k'))
