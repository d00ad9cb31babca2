-- ===== src/Pricing/Resolve.antt =====
-- The price of an order line: where the tiers are disjoint, the one tier that contains the number of
-- pages, or the fixed rate if there is none, in whatever order the rows stand.
use mathlib.Core.List.{Memᴰ}
use mathlib.Core.Path.{subst}
use printsetu.Base.{
  ℕ, ◌≤◌, Bool, true, ◌&&◌, none, some, List, [], ◌∷◌, find_first, find_many, count, ◌≡◌, refl, sym,
  ◌∙◌, ap, All-mem, inl, inr, Bool-cases, All, Pairs, arith, ok, map_option, ◌>>=◌,
}
use printsetu.Print.Types.{PricingCombo, combo_eq_euclid}
use printsetu.Print.Db.{Pricing, PricingTier, Db}
use printsetu.Pricing.Tiers.{is_active_tier, contains, order_by_min, insert_tier}
use printsetu.Pricing.Service.{
  resolve_rate, rate_for, get_active_rate, is_active_rate, ResolvedRate, snapshot, price_of,
}
use printsetu.Pricing.Disjoint.{clash, Apart, IsDisjoint}

-- The tier is active, of this shop and combination, and its range has the number of pages.
abbrev pub prices : ℕ → PricingCombo → ℕ → PricingTier → Bool
prices shop combo pages t = is_active_tier shop combo t && contains pages t

module _ (q : PricingTier → Bool) where
  count-insert :
      (t : PricingTier) (ts : List PricingTier) → count q (insert_tier t ts) ≡ count q (t ∷ ts)
  unfolding insert_tier
  count-insert t [] = refl
  count-insert t (x ∷ xs) = ground (arith, count-insert t xs)

  pub count-order : (ts : List PricingTier) → count q (order_by_min ts) ≡ count q ts
  unfolding order_by_min
  count-order [] = refl
  count-order (t ∷ ts) = ground (arith, count-insert t (order_by_min ts), count-order ts)

  count-none : (ts : List PricingTier) → count q ts ≡ 0 → find_first q ts ≡ none
  count-none [] e = refl
  count-none (t ∷ ts) e = ground (arith, count-none ts)

  find_first-insert :
      (t : PricingTier) (ts : List PricingTier)
      → count q (t ∷ ts) ≤ 1
      → find_first q (insert_tier t ts) ≡ find_first q (t ∷ ts)
  unfolding insert_tier
  find_first-insert t [] h = refl
  find_first-insert t (x ∷ xs) h = ground (arith, find_first-insert t xs, count-none xs)

  -- Where one row at most fits, the search does not depend on the order.
  find_first-order :
      (ts : List PricingTier) → count q ts ≤ 1 → find_first q (order_by_min ts) ≡ find_first q ts
  unfolding order_by_min
  find_first-order [] h = refl
  find_first-order (t ∷ ts) h =
      find_first-insert t (order_by_min ts) (omega (arith, count-order ts, h))
      ∙ ground (arith, find_first-order ts)

-- The rows that both tests accept, in one search or in two.
find_first-find_many :
    (p q : PricingTier → Bool) (ts : List PricingTier)
    → find_first q (find_many p ts) ≡ find_first (λ t. p t && q t) ts
find_first-find_many p q [] = refl
find_first-find_many p q (t ∷ ts) = ground (arith, find_first-find_many p q ts)

pub count-find_many :
    (p q : PricingTier → Bool) (ts : List PricingTier)
    → count q (find_many p ts) ≡ count (λ t. p t && q t) ts
count-find_many p q [] = refl
count-find_many p q (t ∷ ts) = ground (arith, count-find_many p q ts)

module _ (shop : ℕ) (combo : PricingCombo) (pages : ℕ) where
  both-clash :
      (t u : PricingTier)
      → prices shop combo pages t ≡ true
      → prices shop combo pages u ≡ true
      → clash t u ≡ true
  unfolding clash is_active_tier contains
  both-clash t u h k = ground (arith, combo_eq_euclid t.combo u.combo combo)

  alone :
      (t : PricingTier) (ts : List PricingTier)
      → prices shop combo pages t ≡ true
      → All (Apart t) ts
      → count (prices shop combo pages) ts ≡ 0
  alone t [] h k = refl
  alone t (u ∷ ts) h (hu, k) = elim (Bool-cases (prices shop combo pages u)) [
    | inl e ↦ cc (both-clash t u h e, hu)
    | inr e ↦ ground (arith, alone t ts h k)
  ]

  -- One tier at most has the number of pages.
  count-le-one : (ts : List PricingTier) → Pairs Apart ts → count (prices shop combo pages) ts ≤ 1
  count-le-one [] h = omega arith
  count-le-one (t ∷ ts) (ht, h) = elim (Bool-cases (prices shop combo pages t)) [
    | inl e ↦ rw (e, alone t ts e ht) (omega arith)
    | inr e ↦ ground (arith, count-le-one ts h)
  ]

  found_in_order :
      (ts : List PricingTier)
      → Pairs Apart ts
      → find_first (contains pages) (order_by_min (find_many (is_active_tier shop combo) ts))
        ≡ find_first (prices shop combo pages) ts
  found_in_order ts h =
      find_first-order (contains pages) (find_many (is_active_tier shop combo) ts)
        (rw (count-find_many (is_active_tier shop combo) (contains pages) ts) (count-le-one ts h))
      ∙ find_first-find_many (is_active_tier shop combo) (contains pages) ts

  found_self :
      (ts : List PricingTier) (t : PricingTier)
      → Pairs Apart ts
      → Memᴰ t ts
      → prices shop combo pages t ≡ true
      → find_first (prices shop combo pages) ts ≡ some t
  found_self [] t h m p = elim m [ ]
  found_self (u ∷ ts) t h (Memᴰ.head e) p =
      rw (subst (λ x. prices shop combo pages x ≡ true) e p) (ap some (sym e))
  found_self (u ∷ ts) t (hu, h) (Memᴰ.tail m) p = elim (Bool-cases (prices shop combo pages u)) [
    | inl e ↦ cc (both-clash u t e p, All-mem (Apart u) ts hu m)
    | inr e ↦ rw e (found_self ts t h m p)
  ]

  resolved :
      (rate : Pricing) (db : Db)
      → IsDisjoint db
      → find_first (is_active_rate shop combo) db.pricing ≡ some rate
      → (r : ResolvedRate) × (resolve_rate shop combo pages db ≡ (ok r, db))
        × (r.price_per_page
            ≡ price_of (find_first (prices shop combo pages) db.tiers) rate.price_per_page)
        × (r.tier ≡ map_option snapshot (find_first (prices shop combo pages) db.tiers))
  unfolding resolve_rate get_active_rate rate_for ◌>>=◌
  resolved rate db d e =
      let same = found_in_order db.tiers d.apart in
      let ordered : List PricingTier =
        order_by_min (find_many (is_active_tier shop combo) db.tiers) in
      (rate_for rate ordered pages, rw e, rw same, rw same)

-- With disjoint tiers, a tier of the combination that has the number of pages prices every page, and
-- is the tier that the quote records, in whatever order the rows stand.
pub resolve_rate_tier :
    (shop : ℕ) (combo : PricingCombo) (pages : ℕ) (db : Db) (rate : Pricing) (t : PricingTier)
    → IsDisjoint db
    → find_first (is_active_rate shop combo) db.pricing ≡ some rate
    → Memᴰ t db.tiers
    → prices shop combo pages t ≡ true
    → (r : ResolvedRate) × (resolve_rate shop combo pages db ≡ (ok r, db))
      × (r.price_per_page ≡ t.price_per_page)
      × (r.tier ≡ some (snapshot t))
resolve_rate_tier shop combo pages db rate t d e m p =
    let (r, ran, price, tier) = resolved shop combo pages rate db d e in
    let f = found_self shop combo pages db.tiers t d.apart m p in
    (r, ran, rw f at price, rw f at tier)
