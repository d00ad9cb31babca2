-- ===== src/Pricing/Service.antt =====
-- The methods of `PricingService` that change rates and tiers, and the rate of an order line.
use printsetu.Base.{
  ℕ, Bool, true, false, not, ◌&&◌, Option, none, some, List, [], ◌∷◌, ◌++◌, ◌==◌, is_some,
  if◌then◌else◌, find_first, find_many, update_many, count, any, pure, gets, modify, throw_if,
  or_throw, transaction, ◌>>=◌, ◌>>◌, map_option,
}
use printsetu.Print.Types.{PricingCombo, combo_eq}
use printsetu.Print.Db.{
  Pricing, PricingTier, PrintSettings, TierSnapshot, Db, Env, Method, pricing_not_found,
  tier_not_found, not_offered, tier_inverted, tier_overlap, unique_violation,
}
use printsetu.Pricing.Tiers.{
  TierRange, find_overlapping_tier, is_inverted, is_active_tier, contains, order_by_min,
}

-- `where: { shopId, paperSize, colorMode, sideMode, active: true }`
unfoldable pub is_active_rate : ℕ → PricingCombo → Pricing → Bool
is_active_rate shop combo r = r.shop_id == shop && combo_eq r.combo combo && r.active

abbrev pub switch_off : Pricing → Pricing
switch_off r = record r { active = false }

abbrev pub retire : PricingTier → PricingTier
retire t = record t { active = false }

-- `SetPricingDto`
pub record RateInput : Type 0 where
  pub combo : PricingCombo
  pub price_per_page : ℕ

abbrev pub new_rate : Env → ℕ → RateInput → Pricing
new_rate env shop dto = record {
  id = env.uuid 0;
  shop_id = shop;
  combo = dto.combo;
  price_per_page = dto.price_per_page;
  effective_from = env.now;
  active = true;
}

-- The unique index on the shop, the combination and `effectiveFrom`.
abbrev pub same_version : Pricing → Pricing → Bool
same_version a b =
    a.shop_id == b.shop_id && combo_eq a.combo b.combo && a.effective_from == b.effective_from

unfoldable pub create_rate : Pricing → Method (Unit {0})
create_rate r = do
  taken ← gets (λ db. any (same_version r) db.pricing)
  throw_if taken unique_violation
  modify (λ db. record db { pricing = db.pricing ++ (r ∷ []) })

-- `setRate`
unfoldable pub set_rate : Env → ℕ → RateInput → Method (Unit {0})
set_rate env shop dto = transaction (do
  modify (λ db. record db {
    pricing = update_many (is_active_rate shop dto.combo) switch_off db.pricing;
  })
  create_rate (new_rate env shop dto))

-- With no active rate left the shop's pricing is switched off.
unfoldable pub disable_if_empty : ℕ → Db → Db
disable_if_empty shop db =
    if count (λ (r : Pricing). r.shop_id == shop && r.active) db.pricing == 0
    then record db {
      settings =
          update_many (λ (s : PrintSettings). s.shop_id == shop)
            (λ s. record s { pricing_enabled = false }) db.settings;
    }
    else db

-- `deactivate`
unfoldable pub deactivate : ℕ → ℕ → Method (Unit {0})
deactivate shop id = transaction (do
  found ← gets (λ db. find_first (λ (r : Pricing). r.id == id && r.shop_id == shop) db.pricing)
  rate ← or_throw found pricing_not_found
  modify (λ db. record db {
    pricing = update_many (λ (r : Pricing). r.id == id) switch_off db.pricing;
    tiers = update_many (is_active_tier shop rate.combo) retire db.tiers;
  })
  modify (disable_if_empty shop))

-- `getActiveRateOrThrow`
unfoldable pub get_active_rate : ℕ → PricingCombo → Method Pricing
get_active_rate shop combo = do
  found ← gets (λ db. find_first (is_active_rate shop combo) db.pricing)
  or_throw found (not_offered combo)

-- `assertNoOverlap`
unfoldable pub assert_no_overlap : ℕ → PricingCombo → TierRange → Method (Unit {0})
assert_no_overlap shop combo candidate = do
  throw_if (is_inverted candidate) tier_inverted
  clash ←
      gets (λ db. find_overlapping_tier candidate (find_many (is_active_tier shop combo) db.tiers))
  throw_if (is_some clash) tier_overlap

-- `UpdatePricingTierDto`
pub record TierInput : Type 0 where
  pub min_pages : ℕ
  pub max_pages : Option ℕ
  pub price_per_page : ℕ

abbrev pub new_tier : Env → ℕ → PricingCombo → TierInput → PricingTier
new_tier env shop combo dto = record {
  id = env.uuid 0;
  shop_id = shop;
  combo = combo;
  min_pages = dto.min_pages;
  max_pages = dto.max_pages;
  price_per_page = dto.price_per_page;
  active = true;
}

abbrev pub append_tier : PricingTier → Db → Db
append_tier t db = record db { tiers = db.tiers ++ (t ∷ []) }

abbrev pub range_of : Option ℕ → TierInput → TierRange
range_of id dto = record { id = id; min_pages = dto.min_pages; max_pages = dto.max_pages }

-- `addTier`
unfoldable pub add_tier : Env → ℕ → PricingCombo → TierInput → Method (Unit {0})
add_tier env shop combo dto = do
  get_active_rate shop combo
  transaction (do
    assert_no_overlap shop combo (range_of none dto)
    modify (append_tier (new_tier env shop combo dto)))

abbrev pub retire_tier : ℕ → Db → Db
retire_tier id db = record db {
  tiers = update_many (λ (t : PricingTier). t.id == id) retire db.tiers;
}

-- `where: { id, shopId, active: true }`
abbrev pub is_own_tier : ℕ → ℕ → PricingTier → Bool
is_own_tier shop id t = t.id == id && t.shop_id == shop && t.active

-- `updateTier`
unfoldable pub update_tier : Env → ℕ → ℕ → TierInput → Method (Unit {0})
update_tier env shop id dto = transaction (do
  found ← gets (λ db. find_first (is_own_tier shop id) db.tiers)
  existing ← or_throw found tier_not_found
  assert_no_overlap shop existing.combo (range_of (some id) dto)
  modify (retire_tier id)
  modify (append_tier (new_tier env shop existing.combo dto)))

-- `deactivateTier`
unfoldable pub deactivate_tier : ℕ → ℕ → Method (Unit {0})
deactivate_tier shop id = do
  changed ← gets (λ db. count (is_own_tier shop id) db.tiers)
  throw_if (changed == 0) tier_not_found
  modify (λ db. record db { tiers = update_many (is_own_tier shop id) retire db.tiers })

-- `isPricingEnabled`
abbrev pub enabled_in : Option PrintSettings → Bool
enabled_in none = false
enabled_in (some s) = s.pricing_enabled

unfoldable pub is_pricing_enabled : ℕ → Db → Bool
is_pricing_enabled shop db =
    enabled_in (find_first (λ (s : PrintSettings). s.shop_id == shop) db.settings)

-- `ResolvedRate`
pub record ResolvedRate : Type 0 where
  pub pricing_id : ℕ
  pub effective_from : ℕ
  pub base_price_per_page : ℕ
  pub price_per_page : ℕ
  pub has_tiers : Bool
  pub tier : Option TierSnapshot

abbrev pub snapshot : PricingTier → TierSnapshot
snapshot t = record {
  id = t.id;
  min_pages = t.min_pages;
  max_pages = t.max_pages;
  price_per_page = t.price_per_page;
}

abbrev pub price_of : Option PricingTier → ℕ → ℕ
price_of none base = base
price_of (some t) base = t.price_per_page

abbrev pub is_empty {ℓ} : {A : Type ℓ} → List A → Bool
is_empty [] = true
is_empty (x ∷ xs) = false

-- The rate for a number of pages, from the base rate and the ordered tiers of the combination.
unfoldable pub rate_for : Pricing → List PricingTier → ℕ → ResolvedRate
rate_for rate tiers pages =
    let found = find_first (contains pages) tiers in
    record {
      pricing_id = rate.id;
      effective_from = rate.effective_from;
      base_price_per_page = rate.price_per_page;
      price_per_page = price_of found rate.price_per_page;
      has_tiers = not (is_empty tiers);
      tier = map_option snapshot found;
    }

-- `resolveRate`
unfoldable pub resolve_rate : ℕ → PricingCombo → ℕ → Method ResolvedRate
resolve_rate shop combo pages = do
  rate ← get_active_rate shop combo
  tiers ← gets (λ db. order_by_min (find_many (is_active_tier shop combo) db.tiers))
  pure (rate_for rate tiers pages)
