-- ===== src/Subscriptions/Gateways.antt =====
-- Automatic payments: printsetu-backend/src/subscriptions/payment-gateway.ts, and how
-- billing-automation.service.ts calls it. The gateways that are registered are a parameter.
use printsetu.Base.{ℕ, Bool, false, Option, none, some, Result, ok, err, by, get_or, modify}
use printsetu.Print.Types.{Text}
use printsetu.Print.Jobs.Reason.{codes}
use printsetu.Billing.Invoices.{Invoice, PaymentMethod, Payment, invoice_key, update_invoices}
use printsetu.Subscriptions.Store.{Method}

pub record ChargeResult : Type 0 where
  pub succeeded : Bool
  pub reference : Option Text
  pub error : Option Text

-- `charge`, which may throw a message.
pub record PaymentGateway : Type 0 where
  pub charge : Invoice → Result Text ChargeResult

-- `PaymentGatewayRegistry.get`: none for MANUAL and for a gateway that is not connected.
abbrev pub Gateways : Type 0
Gateways = ℕ → Option PaymentGateway

abbrev charged_or_failed : Result Text ChargeResult → ChargeResult
charged_or_failed (ok r) = r
charged_or_failed (err message) = record {
  succeeded = false;
  reference = none;
  error = some message;
}

-- `safeCharge`
unfoldable pub safe_charge : PaymentGateway → Invoice → ChargeResult
safe_charge g i = charged_or_failed (g.charge i)

abbrev pub charged_by : Option PaymentGateway → Invoice → Option ChargeResult
charged_by none i = none
charged_by (some g) i = some (safe_charge g i)

abbrev pub with_failure : ℕ → ChargeResult → Option ℕ → Invoice → Invoice
with_failure attempts r retry_at i = record i {
  attempt_count = attempts;
  last_failure = some (get_or r.error (codes "The payment was declined."));
  next_retry_at = retry_at;
}

unfoldable pub note_failure : ℕ → ℕ → ChargeResult → Option ℕ → Method (Unit {0})
note_failure k attempts r retry_at = modify (λ db. record db {
  ledger = update_invoices (by invoice_key k) (with_failure attempts r retry_at) db.ledger;
})

abbrev pub gateway_payment : ℕ → ChargeResult → Payment
gateway_payment now c = record {
  method = PaymentMethod.gateway;
  reference = c.reference;
  at = some now;
}
