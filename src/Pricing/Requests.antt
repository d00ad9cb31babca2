-- ===== src/Pricing/Requests.antt =====
-- The requests of printsetu-backend/src/pricing/shop-pricing.controller.ts that change something, and
-- the tiers over any sequence of them.
use printsetu.Base.{ℕ, List, [], ◌∷◌}
use printsetu.Base.Effects.Keeps.{Keeps}
use printsetu.Print.Types.{PricingCombo}
use printsetu.Print.Db.{Db, Env, Method}
use printsetu.Pricing.Service
use printsetu.Pricing.Service.{RateInput, TierInput}
use printsetu.Pricing.Disjoint.{
  IsDisjoint, set_rate-IsDisjoint, deactivate-IsDisjoint, add_tier-IsDisjoint,
  update_tier-IsDisjoint, deactivate_tier-IsDisjoint,
}

-- A request of the shopkeeper of a shop.
pub data Request : Type 0 where
  set_rate : RateInput → Request
  remove_rate : ℕ → Request
  add_tier : PricingCombo → TierInput → Request
  update_tier : ℕ → TierInput → Request
  remove_tier : ℕ → Request

-- The methods of `ShopPricingController`.
unfoldable pub handle : Env → ℕ → Request → Method (Unit {0})
handle env shop (Request.set_rate dto) = Service.set_rate env shop dto
handle env shop (Request.remove_rate id) = Service.deactivate shop id
handle env shop (Request.add_tier combo dto) = Service.add_tier env shop combo dto
handle env shop (Request.update_tier id dto) = Service.update_tier env shop id dto
handle env shop (Request.remove_tier id) = Service.deactivate_tier shop id

-- Requests one after another, each with its own environment and shop; a refused one changes nothing
-- for the next.
unfoldable pub run : List (Env × ℕ × Request) → Db → Db
run [] db = db
run ((env, shop, r) ∷ rs) db = run rs (handle env shop r db).1

handle-IsDisjoint : (env : Env) (shop : ℕ) (r : Request) → Keeps IsDisjoint (handle env shop r)
unfolding handle
handle-IsDisjoint env shop (Request.set_rate dto) = set_rate-IsDisjoint env shop dto
handle-IsDisjoint env shop (Request.remove_rate id) = deactivate-IsDisjoint shop id
handle-IsDisjoint env shop (Request.add_tier combo dto) = add_tier-IsDisjoint env shop combo dto
handle-IsDisjoint env shop (Request.update_tier id dto) = update_tier-IsDisjoint env shop id dto
handle-IsDisjoint env shop (Request.remove_tier id) = deactivate_tier-IsDisjoint shop id

-- Whatever pricing requests come, from whichever shops and accepted or refused, the ranges of any two
-- active tiers of one shop and combination stay apart.
pub run-IsDisjoint :
    (rs : List (Env × ℕ × Request)) (db : Db) → IsDisjoint db → IsDisjoint (run rs db)
unfolding run
run-IsDisjoint [] db d = d
run-IsDisjoint ((env, shop, r) ∷ rs) db d =
    run-IsDisjoint rs (handle env shop r db).1 ((handle-IsDisjoint env shop r).at db d)
