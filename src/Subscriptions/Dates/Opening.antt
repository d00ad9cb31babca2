-- ===== src/Subscriptions/Dates/Opening.antt =====
-- The first subscription of a shop has the dates that go with its status.
use printsetu.Base.{
  ℕ, none, [], ◌∷◌, refl, inl, inr, Option-cases, UniqueKeys-append, All-append, ◌>>=◌,
}
use printsetu.Base.Effects.Keeps.{Keeps}
use printsetu.Base.Effects.Gives.{Gives, Gives-pure, Gives-branch, Gives-after, Keeps-given}
use printsetu.Billing.Cycles.{Plan}
use printsetu.Subscriptions.Store.{Subscription, BillingSettings, shop_key, find_subscription}
use printsetu.Subscriptions.Assign.{
  AssignPlanDto, Terms, trial_terms, active_terms, unpaid_terms, new_subscription,
  insert_subscription, bill_first, open_subscription, assign,
}
use printsetu.Subscriptions.Rows.{Nobody, Rows, Rows-on_ledger, Rows-create_invoice, rows_rules}
use printsetu.Subscriptions.Dates.{Dated, IsDated}

insert_subscription-IsDated :
    (s : Subscription) → IsDated s → Keeps (Rows Nobody IsDated) (insert_subscription s)
unfolding insert_subscription ◌>>=◌
insert_subscription-IsDated s d = record {
  at = λ db (u, h, there). elim (Option-cases (find_subscription s.shop_id db)) [
    | inr (old, e) ↦ rw e (u, h, there)
    | inl new ↦ rw new (
      UniqueKeys-append shop_key db.subscriptions s u new,
      All-append IsDated db.subscriptions (s ∷ []) h (d, tt),
      λ k none. cc,
    )
  ];
}

-- Terms with the dates that go with them.
abbrev AreDated : Terms → Type 0
AreDated t = Dated t.status t.trial_ends_at t.grace_ends_at none none

bill_first-AreDated :
    (now shop : ℕ) (dto : AssignPlanDto) (plan : Plan) (settings : BillingSettings)
    → Gives (Rows Nobody IsDated) AreDated (bill_first now shop dto plan settings)
unfolding bill_first Dated
bill_first-AreDated now shop dto plan settings = Gives-after _ _ (Rows-create_invoice _) (λ invoice.
    Gives-branch _ _ _
      (λ _. Gives-after _ _ (Rows-on_ledger _) (λ _. Gives-pure (active_terms now dto.cycle) tt))
      (λ _. Gives-pure (unpaid_terms now dto.cycle settings) refl))

open_subscription-IsDated :
    (now shop : ℕ) (dto : AssignPlanDto) (actor : ℕ) (plan : Plan) (settings : BillingSettings)
    → Keeps (Rows Nobody IsDated) (open_subscription now shop dto actor plan settings)
unfolding open_subscription Dated
open_subscription-IsDated now shop dto actor plan settings =
    Keeps-given _ _
      (Gives-branch _ _ _ (λ _. Gives-pure {Q = AreDated} (trial_terms now plan) refl)
        (λ _.
          Gives-branch _ _ _ (λ _. bill_first-AreDated now shop dto plan settings)
            (λ _. Gives-pure (active_terms now dto.cycle) tt)))
      (λ terms dated.
        let inserted =
          insert_subscription-IsDated (new_subscription now shop dto plan terms) dated in
        search rows_rules depth 16)

pub assign-IsDated :
    (now shop : ℕ) (dto : AssignPlanDto) (actor : ℕ)
    → Keeps (Rows Nobody IsDated) (assign now shop dto actor)
unfolding assign
assign-IsDated now shop dto actor = search (rows_rules, open_subscription-IsDated) depth 30
