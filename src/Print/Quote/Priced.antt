-- ===== src/Print/Quote/Priced.antt =====
-- What a quote promises: each line's document was checked, a line is charged its pages at the rate of
-- all pages of its combination, and the quote's amount is the sum.
use printsetu.Base.{
  ℕ, ◌+◌, ◌*◌, Bool, true, false, none, some, List, [], ◌∷◌, map, sum_of, All, Pairs, is_some, ◌≡◌,
  refl, inl, inr, ◌⊎◌, arith, Option-cases, ok, err, ◌>>=◌, Result,
}
use printsetu.Base.Effects.Reads.{
  Reads, Satisfied, Reads-pure, Reads-gets, Reads-throw_if, Reads-or_throw, Reads-bind, Reads-imp,
}
use printsetu.Print.Types.{PricingCombo}
use printsetu.Print.Db.{Quote, QuoteItem, Db, Env, Error, Claims}
use printsetu.Pricing.Service.{ResolvedRate, resolve_rate, is_pricing_enabled}
use printsetu.Print.Quote.{
  LineInput, Line, Rates, pages_by_combo, rates_for, item_for, add_amounts, make_quote,
  create_quote, store_quote,
}
use printsetu.Print.Quote.Checked.{IsChecked, ids_of, no_repeats, named_in, request-Reads}
use printsetu.Print.Quote.Rates.{combined, pages_by_combo-combined, IsRated, add_rates-Reads}

-- The row of a line.
pub record IsItemOf (l : Line) (i : QuoteItem) : Type 0 where
  pub document : i.document_id ≡ l.input.document_id
  pub combo : i.combo ≡ l.input.combo
  pub copies : i.copies ≡ l.input.copies
  pub pages : i.page_count ≡ l.page_count
  pub billable : i.billable_pages ≡ l.billable_pages

module _ (shop : ℕ) (db : Db) (lines : List Line) where
  -- With pricing on, the rate of the combination's pages; else nothing.
  abbrev pub IsCharged : Bool → Line → QuoteItem → Type 0
  IsCharged true l i =
      (r : ResolvedRate) × (resolve_rate shop l.input.combo (combined l.input.combo lines) db
        ≡ (ok r, db))
      × (i.amount ≡ r.price_per_page * l.billable_pages)
  IsCharged false l i = i.amount ≡ 0

  -- One row for each line, in order.
  pub data Matched (priced : Bool) : List Line → List QuoteItem → Type 0 where
    end : Matched priced [] []
    next :
        {l : Line} {i : QuoteItem} {ls : List Line} {is : List QuoteItem}
        → IsItemOf l i
        → IsCharged priced l i
        → Matched priced ls is
        → Matched priced (l ∷ ls) (i ∷ is)

  -- What the rates must be for the rows to be right.
  abbrev HasRate : Bool → Rates → Line → Type 0
  HasRate true rates l =
      (r : ResolvedRate) × (rates l.input.combo ≡ some r)
      × (resolve_rate shop l.input.combo (combined l.input.combo lines) db ≡ (ok r, db))
  HasRate false rates l = rates l.input.combo ≡ none

  item-IsCharged :
      (priced : Bool) (pages : PricingCombo → ℕ) (rates : Rates) (l : Line)
      → HasRate priced rates l
      → IsCharged priced l (item_for pages rates l)
  unfolding item_for
  item-IsCharged true pages rates l (r, e, q) = (r, q, rw e)
  item-IsCharged false pages rates l e = rw e

  item-IsItemOf :
      (pages : PricingCombo → ℕ) (rates : Rates) (l : Line) → IsItemOf l (item_for pages rates l)
  unfolding item_for
  item-IsItemOf pages rates l = record {
    document = refl;
    combo = refl;
    copies = refl;
    pages = refl;
    billable = refl;
  }

  items-Matched :
      (priced : Bool) (pages : PricingCombo → ℕ) (rates : Rates) (ls : List Line)
      → All (HasRate priced rates) ls
      → Matched priced ls (map (item_for pages rates) ls)
  items-Matched priced pages rates [] h = Matched.end
  items-Matched priced pages rates (l ∷ ls) (h, hs) =
      Matched.next (item-IsItemOf pages rates l) (item-IsCharged priced pages rates l h)
        (items-Matched priced pages rates ls hs)

  found_rates :
      (rates : Rates) (ls : List Line)
      → IsRated shop (pages_by_combo lines) db rates
      → All (λ (l : Line). is_some (rates l.input.combo) ≡ true) ls
      → All (HasRate true rates) ls
  found_rates rates [] k h = tt
  found_rates rates (l ∷ ls) k (h, hs) = (
    elim (Option-cases (rates l.input.combo)) [
      | inl missing ↦ cc (rw missing at h)
      | inr (r, e) ↦
          (r, e, rw (← pages_by_combo-combined lines l.input.combo) (k.rated l.input.combo r e))
    ],
    found_rates rates ls k hs,
  )

  no_rates : (ls : List Line) → All (HasRate false (λ c. none)) ls
  no_rates [] = tt
  no_rates (l ∷ ls) = (refl, no_rates ls)

  rates_for-Reads :
      (priced : Bool)
      → Reads db (λ rates. All (HasRate priced rates) lines) (rates_for priced shop lines)
  unfolding rates_for
  rates_for-Reads true =
      Reads-imp _ (λ rates (k, _, h). found_rates rates lines k h)
        (add_rates-Reads shop (pages_by_combo lines) db (λ c. none) lines
          (record { rated = λ c r e. cc }))
  rates_for-Reads false = Reads-pure _ (no_rates lines)

add_amounts-sum_of :
    (total : ℕ) (is : List QuoteItem)
    → add_amounts total is ≡ total + sum_of (λ (i : QuoteItem). i.amount) is
unfolding add_amounts
add_amounts-sum_of total [] = omega arith
add_amounts-sum_of total (i ∷ is) = omega (arith, add_amounts-sum_of (total + i.amount) is)

-- A quote for a request.
pub record IsQuote (dto : List LineInput) (claims : Claims) (db : Db) (q : Quote) : Type 0 where
  pub distinct : Pairs (λ (m n : ℕ). ¬ (m ≡ n)) (ids_of dto)
  pub lines : List Line
  pub requested : map (λ (l : Line). l.input) lines ≡ dto
  pub checked : All (IsChecked claims db) lines
  pub matched : Matched claims.shop_id db lines q.priced lines q.items
  pub total : q.amount ≡ sum_of (λ (i : QuoteItem). i.amount) q.items
  pub priced : q.priced ≡ is_pricing_enabled claims.shop_id db
  pub holder : claims.session_id ≡ some q.session_id
  pub fresh : q.consumed_at ≡ none

module _ (env : Env) (dto : List LineInput) (claims : Claims) (db : Db) where
  make_quote-Reads : Reads db (IsQuote dto claims db) (make_quote env dto claims)
  unfolding make_quote
  make_quote-Reads = Reads-bind _ _ (Reads-or_throw _ _) (λ session holder.
      Reads-bind _ _ (Reads-throw_if _ _) (λ _ once.
        Reads-bind {Q = λ ds. ds ≡ named_in (ids_of dto) db} _ _ (Reads-gets _ refl) (λ ds named.
          Reads-bind _ _ (request-Reads claims db dto ds named) (λ ls (e, checked).
            Reads-bind {Q = λ b. b ≡ is_pricing_enabled claims.shop_id db} _ _ (Reads-gets _ refl)
              (λ priced same.
                Reads-bind _ _ (rates_for-Reads claims.shop_id db ls priced) (λ rates h.
                  Reads-pure _ (record {
                    distinct = no_repeats (ids_of dto) once;
                    lines = ls;
                    requested = e;
                    checked = checked;
                    matched =
                        items-Matched claims.shop_id db ls priced (pages_by_combo ls) rates ls h;
                    total =
                        omega (
                          arith,
                          add_amounts-sum_of 0 (map (item_for (pages_by_combo ls) rates) ls),
                        );
                    priced = same;
                    holder = holder;
                    fresh = refl;
                  })))))))

  -- `createQuote` throws and writes nothing, or it adds one quote, in which every document is
  -- named once and is the stored one of that number: it belongs to the token's session and shop, is not
  -- deleted, its analysis did not fail and found a page at least, and no order that has it is still
  -- under way; every line is charged its pages at the rate of all pages of its combination (or nothing,
  -- where the shop has no pricing), and the amount is the sum of the lines.
  pub create_quote_lem :
      ((e : Error) × (create_quote env dto claims db ≡ (err e, db)))
      ⊎ ((q : Quote) × (create_quote env dto claims db ≡ (ok q, store_quote q db))
          × IsQuote dto claims db q)
  unfolding create_quote ◌>>=◌
  create_quote_lem =
      go (make_quote env dto claims db).0 (make_quote env dto claims db).1 refl
        make_quote-Reads.same make_quote-Reads.answer
    where
      go :
          (answer : Result Error Quote) (later : Db)
          → make_quote env dto claims db ≡ (answer, later)
          → later ≡ db
          → Satisfied (IsQuote dto claims db) answer
          → ((e : Error) × (create_quote env dto claims db ≡ (err e, db)))
            ⊎ ((q : Quote) × (create_quote env dto claims db ≡ (ok q, store_quote q db))
                × IsQuote dto claims db q)
      go (ok q) later f e h = inr (q, rw (f, e), h)
      go (err x) later f e h = inl (x, rw (f, e))
