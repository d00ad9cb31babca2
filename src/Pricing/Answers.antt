-- ===== src/Pricing/Answers.antt =====
-- What `resolveRate` answers for any number of pages, whether the tiers are disjoint or not.
use mathlib.Core.List.{Memᴰ}
use printsetu.Base.{
  ℕ, ◌≤◌, Bool, true, false, ◌&&◌, Option, none, some, List, [], ◌∷◌, find_first, find_many, count,
  ◌≡◌, refl, sym, ◌∙◌, inl, inr, ◌⊎◌, Bool-cases, Option-cases, All, All-imp, All-find_first,
  find_first-holds, arith, leb, ok, err, ◌>>=◌,
}
use printsetu.Print.Types.{PricingCombo, combo_eq_iff}
use printsetu.Print.Db.{Pricing, PricingTier, Db, not_offered}
use printsetu.Pricing.Tiers.{is_active_tier, contains, order_by_min, insert_tier}
use printsetu.Pricing.Service.{
  resolve_rate, rate_for, get_active_rate, is_active_rate, ResolvedRate, snapshot,
}
use printsetu.Pricing.Resolve.{count-order, count-find_many}

module _ (shop : ℕ) (combo : PricingCombo) where
  -- An active rate of the shop for the combination.
  abbrev pub Offers : Pricing → Type 0
  Offers r = (r.shop_id ≡ shop) × (r.combo ≡ combo) × (r.active ≡ true)

  abbrev pub IsUpTo : ℕ → Option ℕ → Type 0
  IsUpTo pages none = Unit {0}
  IsUpTo pages (some max) = pages ≤ max

  -- An active tier of the shop for the combination, from its first number of pages to its last.
  abbrev pub Covers : ℕ → PricingTier → Type 0
  Covers pages t =
      (t.shop_id ≡ shop)
      × (t.combo ≡ combo)
      × (t.active ≡ true)
      × (t.min_pages ≤ pages)
      × IsUpTo pages t.max_pages

  -- The answer from a rate and the tiers.
  abbrev pub IsAnswer : ℕ → Pricing → List PricingTier → ResolvedRate → Type 0
  IsAnswer pages rate tiers r =
      (All (λ t. ¬ (Covers pages t)) tiers
        × (r.price_per_page ≡ rate.price_per_page)
        × (r.tier ≡ none))
      ⊎ ((t : PricingTier) × Memᴰ t tiers
          × Covers pages t
          × (r.price_per_page ≡ t.price_per_page)
          × (r.tier ≡ some (snapshot t)))

  covers :
      (pages : ℕ) (t : PricingTier)
      → is_active_tier shop combo t ≡ true
      → contains pages t ≡ true
      → Covers pages t
  unfolding is_active_tier contains
  covers pages t h k = ground (arith, combo_eq_iff t.combo combo)

  uncovered :
      (pages : ℕ) (t : PricingTier)
      → (is_active_tier shop combo t && contains pages t) ≡ false
      → ¬ (Covers pages t)
  unfolding is_active_tier contains
  uncovered pages t h c = ground (arith, combo_eq_iff t.combo combo)

  offered : (r : Pricing) → is_active_rate shop combo r ≡ true → Offers r
  unfolding is_active_rate
  offered r h = ground (arith, combo_eq_iff r.combo combo)

  unoffered : (r : Pricing) → is_active_rate shop combo r ≡ false → ¬ (Offers r)
  unfolding is_active_rate
  unoffered r h o = ground (arith, combo_eq_iff r.combo combo)

module _ (R : PricingTier → Type 0) where
  All-insert_tier :
      (t : PricingTier) (ts : List PricingTier) → R t → All R ts → All R (insert_tier t ts)
  unfolding insert_tier
  All-insert_tier t [] r h = (r, tt)
  All-insert_tier t (x ∷ xs) r (hx, h) = elim (Bool-cases (leb t.min_pages x.min_pages)) [
    | inl e ↦ rw e (r, (hx, h))
    | inr e ↦ rw e (hx, All-insert_tier t xs r h)
  ]

  All-order_by_min : (ts : List PricingTier) → All R ts → All R (order_by_min ts)
  unfolding order_by_min
  All-order_by_min [] h = tt
  All-order_by_min (t ∷ ts) (r, h) = All-insert_tier t (order_by_min ts) r (All-order_by_min ts h)

  -- The rows that a search picks.
  All-picked :
      (p : PricingTier → Bool) (ts : List PricingTier)
      → All R ts
      → All (λ t. R t × (p t ≡ true)) (find_many p ts)
  All-picked p [] h = tt
  All-picked p (t ∷ ts) (r, h) = elim (Bool-cases (p t)) [
    | inl e ↦ rw e ((r, e), All-picked p ts h)
    | inr e ↦ rw e (All-picked p ts h)
  ]

members : (ts : List PricingTier) → All (λ t. Memᴰ t ts) ts
members [] = tt
members (t ∷ ts) = (Memᴰ.head refl, All-imp (λ x m. Memᴰ.tail m) ts (members ts))

module _ {A : Type 0} (q : A → Bool) where
  missed : (xs : List A) → find_first q xs ≡ none → All (λ x. q x ≡ false) xs
  missed [] h = tt
  missed (x ∷ xs) h = elim (Bool-cases (q x)) [
    | inl e ↦ cc (rw e at h)
    | inr e ↦ (e, missed xs (rw e at h))
  ]

  count_zero : (xs : List A) → All (λ x. q x ≡ false) xs → count q xs ≡ 0
  count_zero [] h = refl
  count_zero (x ∷ xs) (e, h) = let rest = count_zero xs h in rw e (omega arith)

  zero_count : (xs : List A) → count q xs ≡ 0 → All (λ x. q x ≡ false) xs
  zero_count [] h = tt
  zero_count (x ∷ xs) h = elim (Bool-cases (q x)) [
    | inl e ↦ absurd (ground arith)
    | inr e ↦ (e, zero_count xs (let k = rw e at h in omega arith))
  ]

module _ (shop : ℕ) (combo : PricingCombo) (pages : ℕ) (rate : Pricing)
    (ts : List PricingTier) where
  abbrev ordered : List PricingTier
  ordered = order_by_min (find_many (is_active_tier shop combo) ts)

  answered : IsAnswer shop combo pages rate ts (rate_for rate ordered pages)
  unfolding rate_for
  answered = elim (Option-cases (find_first (contains pages) ordered)) [
    | inl gap ↦
        let zero' = count_zero (contains pages) ordered (missed (contains pages) ordered gap) in
        let active = find_many (is_active_tier shop combo) ts in
        let none' =
          zero_count (λ t. is_active_tier shop combo t && contains pages t) ts
            (sym (count-find_many (is_active_tier shop combo) (contains pages) ts)
              ∙ sym (count-order (contains pages) active)
              ∙ zero') in
        rw gap (inl (All-imp (uncovered shop combo pages) ts none', refl, refl))
    | inr (t, hit) ↦
        let (m, active) =
          All-find_first (λ t. Memᴰ t ts × (is_active_tier shop combo t ≡ true)) (contains pages)
            ordered t
            (All-order_by_min _ _ (All-picked _ (is_active_tier shop combo) ts (members ts))) hit in
        let inside = find_first-holds (contains pages) ordered t hit in
        rw hit (inr (t, m, covers shop combo pages t active inside, refl, refl))
  ]

-- The rate of a combination and a number of pages: where the shop has no active rate for the combination,
-- the request is refused; else the answer comes from such a rate, and the price is the one of an active tier
-- of the combination that has the number of pages between its bounds, both included, and that the answer
-- records, or the fixed price, and then no active tier of the combination has that number of pages and none
-- is recorded. Nothing is written.
pub resolve_rate_lem :
    (shop : ℕ) (combo : PricingCombo) (pages : ℕ) (db : Db)
    → (All (λ r. ¬ (Offers shop combo r)) db.pricing
        × (resolve_rate shop combo pages db ≡ (err (not_offered combo), db)))
      ⊎ ((rate : Pricing) × (r : ResolvedRate) × Offers shop combo rate
          × (find_first (is_active_rate shop combo) db.pricing ≡ some rate)
          × (resolve_rate shop combo pages db ≡ (ok r, db))
          × IsAnswer shop combo pages rate db.tiers r)
unfolding resolve_rate get_active_rate ◌>>=◌
resolve_rate_lem shop combo pages db =
    elim (Option-cases (find_first (is_active_rate shop combo) db.pricing)) [
      | inl missing ↦
          inl (
            All-imp (unoffered shop combo) db.pricing (missed _ db.pricing missing),
            rw missing refl,
          )
      | inr (rate, e) ↦ inr (
        rate,
        rate_for rate (ordered shop combo pages rate db.tiers) pages,
        offered shop combo rate (find_first-holds _ db.pricing rate e),
        e,
        rw e refl,
        answered shop combo pages rate db.tiers,
      )
    ]
