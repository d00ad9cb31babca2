-- ===== src/Pricing/Tiers.antt =====
-- Page ranges of quantity tiers: `findOverlappingTier`, and the search of `resolveRate`.
use printsetu.Base.{
  ℕ, Bool, true, not, ◌&&◌, Option, none, some, List, [], ◌∷◌, ◌==◌, leb, if◌then◌else◌, find_first,
}
use printsetu.Print.Types.{PricingCombo, combo_eq}
use printsetu.Print.Db.{PricingTier}

-- `TierRange`; a tier that is not stored yet has no identifier, and no `max_pages` is no bound.
pub record TierRange : Type 0 where
  pub id : Option ℕ
  pub min_pages : ℕ
  pub max_pages : Option ℕ

-- `n <= (max ?? Infinity)`
abbrev pub within : ℕ → Option ℕ → Bool
within n none = true
within n (some max) = leb n max

-- `tier.id !== candidate.id`
abbrev pub is_other : Option ℕ → ℕ → Bool
is_other none i = true
is_other (some c) i = not (i == c)

-- `tier.minPages <= candidateMax`, where both bounds may be missing.
abbrev pub overlaps : TierRange → PricingTier → Bool
overlaps c t = within t.min_pages c.max_pages && within c.min_pages t.max_pages

-- `findOverlappingTier`
unfoldable pub find_overlapping_tier : TierRange → List PricingTier → Option PricingTier
find_overlapping_tier c existing = find_first (λ t. is_other c.id t.id && overlaps c t) existing

-- the range check of `assertNoOverlap`
abbrev pub is_inverted : TierRange → Bool
is_inverted c = not (within c.min_pages c.max_pages)

-- `where: { shopId, ...combo, active: true }`
unfoldable pub is_active_tier : ℕ → PricingCombo → PricingTier → Bool
is_active_tier shop combo t = t.shop_id == shop && combo_eq t.combo combo && t.active

-- The tier's range contains the number of pages.
unfoldable pub contains : ℕ → PricingTier → Bool
contains pages t = leb t.min_pages pages && within pages t.max_pages

unfoldable pub insert_tier : PricingTier → List PricingTier → List PricingTier
insert_tier t [] = t ∷ []
insert_tier t (x ∷ xs) = if leb t.min_pages x.min_pages then t ∷ x ∷ xs else x ∷ insert_tier t xs

-- `orderBy: { minPages: 'asc' }`
unfoldable pub order_by_min : List PricingTier → List PricingTier
order_by_min [] = []
order_by_min (t ∷ ts) = insert_tier t (order_by_min ts)
