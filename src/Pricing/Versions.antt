-- ===== src/Pricing/Versions.antt =====
-- Rates are versioned: `setRate` adds a row and switches the old ones off, `deactivate` takes the
-- tiers along, and what other combinations and shops are charged stays.
use printsetu.Base.{
  ℕ, Bool, true, false, not, ◌&&◌, some, List, [], ◌∷◌, ◌++◌, ◌==◌, find_first, find_many,
  update_many, count, any, ◌≡◌, refl, inl, inr, ◌⊎◌, Bool-cases, arith, ok, err, ◌>>=◌, transaction,
  find_many-update_many, count-update_many_none, count-append, find_first-append_none,
  find_many-append_none, map,
}
use printsetu.Print.Types.{PricingCombo, combo_eq, combo_eq_iff}
use printsetu.Print.Db.{Pricing, Db, Env, unique_violation}
use printsetu.Pricing.Service.{
  RateInput, is_active_rate, switch_off, new_rate, set_rate, create_rate, same_version,
}

-- Another shop, or another combination of the same shop.
abbrev pub is_elsewhere : ℕ → PricingCombo → ℕ → PricingCombo → Bool
is_elsewhere shop combo shop' combo' = not (shop == shop' && combo_eq combo combo')

-- A row apart from its switch: its number, shop, combination, price and date.
abbrev pub terms_of : Pricing → Pricing
terms_of r = record r { active = true }

-- What `setRate` leaves when it succeeds.
pub record IsVersioned (env : Env) (shop : ℕ) (dto : RateInput) (before after : Db) : Type 0 where
  pub only : count (is_active_rate shop dto.combo) after.pricing ≡ 1
  pub charged :
      find_first (is_active_rate shop dto.combo) after.pricing ≡ some (new_rate env shop dto)
  pub others :
      (shop' : ℕ) (combo' : PricingCombo)
      → is_elsewhere shop dto.combo shop' combo' ≡ true
      → find_many (is_active_rate shop' combo') after.pricing
        ≡ find_many (is_active_rate shop' combo') before.pricing
  pub kept :
      map terms_of after.pricing
      ≡ map terms_of before.pricing ++ (terms_of (new_rate env shop dto) ∷ [])

module _ (env : Env) (shop : ℕ) (dto : RateInput) where
  switched : List Pricing → List Pricing
  switched = update_many (is_active_rate shop dto.combo) switch_off

  terms-switched : (rs : List Pricing) → map terms_of (switched rs) ≡ map terms_of rs
  unfolding switched
  terms-switched [] = refl
  terms-switched (r ∷ rs) = elim (Bool-cases (is_active_rate shop dto.combo r)) [
    | inl t ↦ rw (t, terms-switched rs) refl
    | inr f ↦ rw (f, terms-switched rs) refl
  ]

  terms-append :
      (rs : List Pricing) (r : Pricing)
      → map terms_of (rs ++ (r ∷ [])) ≡ map terms_of rs ++ (terms_of r ∷ [])
  terms-append [] r = refl
  terms-append (x ∷ rs) r = rw (terms-append rs r) refl

  off : (s : ℕ) (c : PricingCombo) (r : Pricing) → is_active_rate s c (switch_off r) ≡ false
  unfolding is_active_rate
  off s c r = ground arith

  none_left : (rs : List Pricing) → count (is_active_rate shop dto.combo) (switched rs) ≡ 0
  unfolding switched
  none_left rs = count-update_many_none _ _ switch_off rs (λ x h. h) (off shop dto.combo)

  new_is_active : is_active_rate shop dto.combo (new_rate env shop dto) ≡ true
  unfolding is_active_rate
  new_is_active = ground (arith, combo_eq_iff dto.combo dto.combo)

  module _ (shop' : ℕ) (combo' : PricingCombo)
      (e : is_elsewhere shop dto.combo shop' combo' ≡ true) where
    new_elsewhere : is_active_rate shop' combo' (new_rate env shop dto) ≡ false
    unfolding is_active_rate
    new_elsewhere = ground arith

    passed :
        (r : Pricing)
        → is_active_rate shop dto.combo r ≡ true
        → is_active_rate shop' combo' r ≡ false
    unfolding is_active_rate
    passed r h = ground (
      arith,
      combo_eq_iff r.combo dto.combo,
      combo_eq_iff r.combo combo',
      combo_eq_iff dto.combo combo',
    )

    others_kept :
        (rs : List Pricing)
        → find_many (is_active_rate shop' combo') (switched rs ++ (new_rate env shop dto ∷ []))
          ≡ find_many (is_active_rate shop' combo') rs
    unfolding switched
    others_kept rs =
        rw
          (find_many-append_none (is_active_rate shop' combo')
            (update_many (is_active_rate shop dto.combo) switch_off rs) (new_rate env shop dto)
            new_elsewhere)
          (find_many-update_many _ _ switch_off rs (λ r h. (passed r h, off shop' combo' r)))

  abbrev versioned : Db → Db
  versioned db = record db { pricing = switched db.pricing ++ (new_rate env shop dto ∷ []) }

  versioned-IsVersioned : (db : Db) → IsVersioned env shop dto db (versioned db)
  versioned-IsVersioned db = record {
    only =
        rw
          (
            count-append (is_active_rate shop dto.combo) (switched db.pricing)
                (new_rate env shop dto),
            none_left db.pricing,
            new_is_active,
          )
          (omega arith);
    charged = rw (
      find_first-append_none (is_active_rate shop dto.combo) (switched db.pricing)
          (new_rate env shop dto) (none_left db.pricing),
      new_is_active,
    );
    others = λ s c e. others_kept s c e db.pricing;
    kept = rw (terms-append, terms-switched) refl;
  }

  -- Setting a rate either fails on the unique index, with nothing changed, or leaves one active rate
  -- for the combination, the new one; every row that was there keeps its number, shop, combination, price
  -- and date, in its place before the new row; and every other combination and shop keeps its active
  -- rates.
  pub set_rate-IsVersioned :
      (db : Db)
      → (set_rate env shop dto db ≡ (err unique_violation, db))
        ⊎ ((after : Db) × (set_rate env shop dto db ≡ (ok tt, after))
            × IsVersioned env shop dto db after)
  unfolding set_rate create_rate switched transaction ◌>>=◌
  set_rate-IsVersioned db =
      elim (Bool-cases (any (same_version (new_rate env shop dto)) (switched db.pricing))) [
        | inl taken ↦ inl (rw taken)
        | inr free ↦ inr (versioned db, rw free, versioned-IsVersioned db)
      ]
