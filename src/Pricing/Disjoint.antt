-- ===== src/Pricing/Disjoint.antt =====
-- The invariant of the tiers: no number of pages falls into two active tiers of one combination.
use printsetu.Base.{
  ℕ, Bool, true, false, ◌&&◌, Option, none, some, List, [], ◌∷◌, ◌==◌, find_many, update_many, ◌≡◌,
  refl, inl, inr, Bool-cases, All, All-imp, Pairs, Pairs-append, arith, ◌>>=◌, ◌>>◌, modify, ok,
  err, Option-cases, ◌⊎◌,
}
use printsetu.Base.Effects.Keeps.{
  Keeps, Keeps-bind, Keeps-modify, Keeps-gets, Keeps-or_throw, Keeps-throw_if, Keeps-transaction,
  keeps_rules,
}
use printsetu.Print.Types.{PricingCombo, combo_eq}
use printsetu.Print.Db.{
  Pricing, PricingTier, Db, Env, Error, tier_inverted, tier_overlap, tier_not_found,
  pricing_not_found, unique_violation,
}
use printsetu.Pricing.Tiers.{
  TierRange, within, is_other, overlaps, find_overlapping_tier, is_inverted, is_active_tier,
}
use printsetu.Pricing.Service.{
  TierInput, RateInput, retire, new_tier, append_tier, range_of, assert_no_overlap, add_tier,
  update_tier, get_active_rate, deactivate_tier, deactivate, disable_if_empty, set_rate,
  create_rate, new_rate, retire_tier, is_own_tier,
}

-- Two active tiers of one shop and combination whose ranges share a number of pages.
unfoldable pub clash : PricingTier → PricingTier → Bool
clash a b =
    a.active
    && b.active
    && a.shop_id == b.shop_id
    && combo_eq a.combo b.combo
    && within a.min_pages b.max_pages
    && within b.min_pages a.max_pages

abbrev pub Apart : PricingTier → PricingTier → Type 0
Apart a b = clash a b ≡ false

pub record IsDisjoint (db : Db) : Type 0 where
  pub apart : Pairs Apart db.tiers

-- A tier that is switched off is apart from every other.
retire_left : (a b : PricingTier) → Apart (retire a) b
unfolding clash
retire_left a b = refl

retire_right : (a b : PricingTier) → Apart a (retire b)
unfolding clash
retire_right a b = ground arith

All-Apart-update :
    (a : PricingTier) (p : PricingTier → Bool) (ts : List PricingTier)
    → All (Apart a) ts
    → All (Apart a) (update_many p retire ts)
All-Apart-update a p [] h = tt
All-Apart-update a p (t ∷ ts) (ht, h) = elim (Bool-cases (p t)) [
  | inl hit ↦ rw hit (retire_right a t, All-Apart-update a p ts h)
  | inr miss ↦ rw miss (ht, All-Apart-update a p ts h)
]

All-Apart-retire : (a : PricingTier) (ts : List PricingTier) → All (Apart (retire a)) ts
All-Apart-retire a [] = tt
All-Apart-retire a (t ∷ ts) = (retire_left a t, All-Apart-retire a ts)

-- Switching tiers off keeps the others apart.
retire-Pairs :
    (p : PricingTier → Bool) (ts : List PricingTier)
    → Pairs Apart ts
    → Pairs Apart (update_many p retire ts)
retire-Pairs p [] h = tt
retire-Pairs p (t ∷ ts) (ht, h) = elim (Bool-cases (p t)) [
  | inl hit ↦ rw hit (All-Apart-retire t (update_many p retire ts), retire-Pairs p ts h)
  | inr miss ↦ rw miss (All-Apart-update t p ts ht, retire-Pairs p ts h)
]

module _ (shop : ℕ) (combo : PricingCombo) (dto : TierInput) (env : Env) where
  -- The test that refuses an overlap leaves every other tier apart from the new one.
  unfound-Apart :
      (id : Option ℕ) (t : PricingTier)
      → is_other id t.id ≡ true
      → (is_active_tier shop combo t && (is_other id t.id && overlaps (range_of id dto) t)) ≡ false
      → Apart t (new_tier env shop combo dto)
  unfolding clash is_active_tier
  unfound-Apart id t o h = ground arith

  unfound-All :
      (id : Option ℕ) (ts : List PricingTier)
      → find_overlapping_tier (range_of id dto) (find_many (is_active_tier shop combo) ts) ≡ none
      → All (λ t. is_other id t.id ≡ true → Apart t (new_tier env shop combo dto)) ts
  unfolding find_overlapping_tier
  unfound-All id [] h = tt
  unfound-All id (t ∷ ts) h =
      (λ o. ground (arith, unfound-Apart id t o), unfound-All id ts (ground arith))

  new-Apart :
      (ts : List PricingTier)
      → All (λ t. true ≡ true → Apart t (new_tier env shop combo dto)) ts
      → All (λ t. Apart t (new_tier env shop combo dto)) ts
  new-Apart ts = All-imp (λ t h. h refl) ts

  retired-Apart :
      (id : ℕ) (ts : List PricingTier)
      → All (λ t. is_other (some id) t.id ≡ true → Apart t (new_tier env shop combo dto)) ts
      → All (λ t. Apart t (new_tier env shop combo dto)) (update_many (λ t. t.id == id) retire ts)
  retired-Apart id [] h = tt
  retired-Apart id (t ∷ ts) (ht, h) = elim (Bool-cases (t.id == id)) [
    | inl hit ↦ rw hit (retire_left t (new_tier env shop combo dto), retired-Apart id ts h)
    | inr miss ↦ rw miss (ht (rw miss), retired-Apart id ts h)
  ]

  -- With the test passed, the new tier may join the active ones.
  append-IsDisjoint :
      (db : Db)
      → IsDisjoint db
      → find_overlapping_tier (range_of none dto) (find_many (is_active_tier shop combo) db.tiers)
        ≡ none
      → IsDisjoint (append_tier (new_tier env shop combo dto) db)
  append-IsDisjoint db d h = record {
    apart =
        Pairs-append Apart db.tiers (new_tier env shop combo dto) d.apart
          (new-Apart db.tiers (unfound-All none db.tiers h));
  }

  replace-IsDisjoint :
      (id : ℕ) (db : Db)
      → IsDisjoint db
      → find_overlapping_tier
          (range_of (some id) dto)
          (find_many (is_active_tier shop combo) db.tiers)
        ≡ none
      → IsDisjoint (append_tier (new_tier env shop combo dto) (retire_tier id db))
  replace-IsDisjoint id db d h = record {
    apart =
        Pairs-append Apart _ (new_tier env shop combo dto)
          (retire-Pairs (λ t. t.id == id) db.tiers d.apart)
          (retired-Apart id db.tiers (unfound-All (some id) db.tiers h));
  }

-- The check passes and finds no overlap, or it throws; it never writes.
assert_no_overlap-cases :
    (shop : ℕ) (combo : PricingCombo) (c : TierRange) (db : Db)
    → ((assert_no_overlap shop combo c db ≡ (ok tt, db))
        × (find_overlapping_tier c (find_many (is_active_tier shop combo) db.tiers) ≡ none))
      ⊎ ((e : Error) × (assert_no_overlap shop combo c db ≡ (err e, db)))
unfolding assert_no_overlap ◌>>=◌
assert_no_overlap-cases shop combo c db = elim (Bool-cases (is_inverted c)) [
  | inl inverted ↦ inr (tier_inverted, rw inverted)
  | inr fine ↦
      elim (Option-cases
        (find_overlapping_tier c (find_many (is_active_tier shop combo) db.tiers))) [
          | inl free ↦ inl (rw (fine, free), free)
          | inr (t, hit) ↦ inr (tier_overlap, rw (fine, hit))
        ]
]

checked_append-IsDisjoint :
    (env : Env) (shop : ℕ) (combo : PricingCombo) (dto : TierInput)
    → Keeps IsDisjoint (
        assert_no_overlap shop combo (range_of none dto)
        >> modify (append_tier (new_tier env shop combo dto)))
unfolding ◌>>=◌
checked_append-IsDisjoint env shop combo dto = record {
  at = λ db d. elim (assert_no_overlap-cases shop combo (range_of none dto) db) [
    | inl (e, free) ↦ rw e (append-IsDisjoint shop combo dto env db d free)
    | inr (x, e) ↦ rw e d
  ];
}

checked_replace-IsDisjoint :
    (env : Env) (shop id : ℕ) (combo : PricingCombo) (dto : TierInput)
    → Keeps IsDisjoint (
        assert_no_overlap shop combo (range_of (some id) dto)
        >> (modify (retire_tier id) >> modify (append_tier (new_tier env shop combo dto))))
unfolding ◌>>=◌
checked_replace-IsDisjoint env shop id combo dto = record {
  at = λ db d. elim (assert_no_overlap-cases shop combo (range_of (some id) dto) db) [
    | inl (e, free) ↦ rw e (replace-IsDisjoint shop combo dto env id db d free)
    | inr (x, e) ↦ rw e d
  ];
}

get_active_rate-Keeps :
    (shop : ℕ) (combo : PricingCombo) → Keeps IsDisjoint (get_active_rate shop combo)
unfolding get_active_rate
get_active_rate-Keeps shop combo = search keeps_rules

-- Adding a tier keeps the ranges apart, whether it is accepted or refused.
pub add_tier-IsDisjoint :
    (env : Env) (shop : ℕ) (combo : PricingCombo) (dto : TierInput)
    → Keeps IsDisjoint (add_tier env shop combo dto)
unfolding add_tier
add_tier-IsDisjoint env shop combo dto =
    Keeps-bind _ _ (get_active_rate-Keeps shop combo)
      λ _. Keeps-transaction _ (checked_append-IsDisjoint env shop combo dto)

-- So does the change of a tier, which is checked against the others and then takes its place.
pub update_tier-IsDisjoint :
    (env : Env) (shop id : ℕ) (dto : TierInput) → Keeps IsDisjoint (update_tier env shop id dto)
unfolding update_tier
update_tier-IsDisjoint env shop id dto = Keeps-transaction _ (
    Keeps-bind _ _ (Keeps-gets _) λ found.
      Keeps-bind _ _ (Keeps-or_throw found tier_not_found)
        λ t. checked_replace-IsDisjoint env shop id t.combo dto)

-- Switching tiers off, one by one or with their rate, keeps the others apart.
pub deactivate_tier-IsDisjoint : (shop id : ℕ) → Keeps IsDisjoint (deactivate_tier shop id)
unfolding deactivate_tier
deactivate_tier-IsDisjoint shop id = Keeps-bind _ _ (Keeps-gets _) λ n.
    Keeps-bind _ _ (Keeps-throw_if (n == 0) tier_not_found) λ _.
      Keeps-modify _ λ db d. record { apart = retire-Pairs (is_own_tier shop id) db.tiers d.apart }

disable_if_empty-IsDisjoint :
    (shop : ℕ) (db : Db) → IsDisjoint db → IsDisjoint (disable_if_empty shop db)
unfolding disable_if_empty
disable_if_empty-IsDisjoint shop db d = record { apart = ground (arith, d.apart) }

pub deactivate-IsDisjoint : (shop id : ℕ) → Keeps IsDisjoint (deactivate shop id)
unfolding deactivate
deactivate-IsDisjoint shop id = Keeps-transaction _ (
    Keeps-bind _ _ (Keeps-gets _) λ found.
      Keeps-bind _ _ (Keeps-or_throw found pricing_not_found) λ rate.
        Keeps-bind _ _
          (Keeps-modify _ λ db d. record {
            apart = retire-Pairs (is_active_tier shop rate.combo) db.tiers d.apart;
          })
          λ _. Keeps-modify _ (disable_if_empty-IsDisjoint shop))

create_rate-IsDisjoint : (r : Pricing) → Keeps IsDisjoint (create_rate r)
unfolding create_rate
create_rate-IsDisjoint r = Keeps-bind _ _ (Keeps-gets _) λ taken.
    Keeps-bind _ _ (Keeps-throw_if taken unique_violation)
      λ _. Keeps-modify _ λ db d. record { apart = d.apart }

-- A new rate does not touch the tiers.
pub set_rate-IsDisjoint :
    (env : Env) (shop : ℕ) (dto : RateInput) → Keeps IsDisjoint (set_rate env shop dto)
unfolding set_rate
set_rate-IsDisjoint env shop dto = Keeps-transaction _ (
    Keeps-bind _ _ (Keeps-modify _ λ db d. record { apart = d.apart })
      λ _. create_rate-IsDisjoint (new_rate env shop dto))
