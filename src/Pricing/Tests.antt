-- ===== src/Pricing/Tests.antt =====
-- Runs of the pricing methods on a small shop, and the theorems at such inputs.
use mathlib.Core.List.{Memᴰ}
use printsetu.Base.{
  ℕ, ◌+◌, true, Option, none, some, List, [], ◌∷◌, ◌≡◌, refl, ◌⊎◌, ok, err, ◌>>=◌, transaction,
}
use printsetu.Print.Types.{PricingCombo, PaperSize, ColorMode, SideMode, combo_eq}
use printsetu.Print.Db.{Pricing, PricingTier, Db, Env, tier_overlap, unique_violation}
use printsetu.Pricing.Tiers.{find_overlapping_tier, is_active_tier, contains}
use printsetu.Pricing.Service
use printsetu.Pricing.Service.{
  RateInput, TierInput, ResolvedRate, snapshot, is_active_rate, new_rate, assert_no_overlap,
  get_active_rate, create_rate,
}
use printsetu.Pricing.Disjoint.{IsDisjoint, clash}
use printsetu.Pricing.Resolve.{resolve_rate_tier}
use printsetu.Pricing.Answers.{Offers, IsAnswer, resolve_rate_lem}
use printsetu.Print.Db.{not_offered}
use printsetu.Base.{All, find_first}
use printsetu.Pricing.Versions.{IsVersioned, set_rate-IsVersioned}
use printsetu.Pricing.Requests.{Request, run, run-IsDisjoint}

abbrev a4 : PricingCombo
a4 = record { paper_size = PaperSize.a4; color_mode = ColorMode.bw; side_mode = SideMode.simplex }

abbrev env : Env
env = record {
  now = 1000;
  uuid = λ n. 90 + n;
  sign_token = λ c. [];
  is_connected = λ p. true;
  customer_can_order = λ s. true;
  shop_can_print = λ s. true;
  session_shop = λ s. 5;
}

abbrev base_rate : Pricing
base_rate = record {
  id = 1;
  shop_id = 5;
  combo = a4;
  price_per_page = 200;
  effective_from = 10;
  active = true;
}

abbrev tier : ℕ → ℕ → Option ℕ → ℕ → PricingTier
tier id low high price = record {
  id = id;
  shop_id = 5;
  combo = a4;
  min_pages = low;
  max_pages = high;
  price_per_page = price;
  active = true;
}

abbrev shop : Db
shop = record {
  jobs = [];
  items = [];
  events = [];
  documents = [];
  quotes = [];
  settings = [];
  printers = [];
  notifications = [];
  pricing = base_rate ∷ [];
  tiers = tier 3 50 none 100 ∷ tier 2 10 (some 20) 150 ∷ [];
  dispatch_queue = [];
  pushed = [];
  audit = [];
  next_token = 1;
}

shop-IsDisjoint : IsDisjoint shop
unfolding clash combo_eq
shop-IsDisjoint = record { apart = ((refl, tt), (tt, tt)) }

overlap_refused :
    (Service.add_tier env 5 a4
      (record { min_pages = 15; max_pages = some 40; price_per_page = 120 })
      shop).0
    ≡ err tier_overlap
unfolding Service.add_tier assert_no_overlap get_active_rate is_active_rate is_active_tier
    find_overlapping_tier combo_eq transaction ◌>>=◌
overlap_refused = refl

abbrev requests : List (Env × ℕ × Request)
requests =
    (
      env,
      5,
      Request.add_tier a4 (record { min_pages = 21; max_pages = some 49; price_per_page = 120 }),
    )
    ∷ (
      env,
      5,
      Request.update_tier 2 (record { min_pages = 5; max_pages = some 20; price_per_page = 140 }),
    )
    ∷ (env, 5, Request.remove_tier 3)
    ∷ []

run-IsDisjoint_example : IsDisjoint (run requests shop)
run-IsDisjoint_example = run-IsDisjoint requests shop shop-IsDisjoint

resolve_rate_tier_example :
    (r : ResolvedRate) × (Service.resolve_rate 5 a4 60 shop ≡ (ok r, shop))
    × (r.price_per_page ≡ 100)
    × (r.tier ≡ some (snapshot (tier 3 50 none 100)))
unfolding is_active_rate is_active_tier contains combo_eq
resolve_rate_tier_example =
    resolve_rate_tier 5 a4 60 shop base_rate (tier 3 50 none 100) shop-IsDisjoint refl
      (Memᴰ.head refl) refl

resolve_rate_lem_example :
    (All (λ r. ¬ (Offers 5 a4 r)) shop.pricing
      × (Service.resolve_rate 5 a4 30 shop ≡ (err (not_offered a4), shop)))
    ⊎ ((rate : Pricing) × (r : ResolvedRate) × Offers 5 a4 rate
        × (find_first (is_active_rate 5 a4) shop.pricing ≡ some rate)
        × (Service.resolve_rate 5 a4 30 shop ≡ (ok r, shop))
        × IsAnswer 5 a4 30 rate shop.tiers r)
resolve_rate_lem_example = resolve_rate_lem 5 a4 30 shop

abbrev cheaper : RateInput
cheaper = record { combo = a4; price_per_page = 180 }

set_rate-IsVersioned_example :
    (Service.set_rate env 5 cheaper shop ≡ (err unique_violation, shop))
    ⊎ ((after : Db) × (Service.set_rate env 5 cheaper shop ≡ (ok tt, after))
        × IsVersioned env 5 cheaper shop after)
set_rate-IsVersioned_example = set_rate-IsVersioned env 5 cheaper shop
