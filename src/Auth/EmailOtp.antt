-- ===== src/Auth/EmailOtp.antt =====
-- printsetu-backend/src/auth/email-otp.service.ts: codes sent by email. Addresses and codes are texts; the
-- hash is a parameter, and so are the code that is drawn and whether the mail service accepts a message.
use printsetu.Base.{
  ℕ, ◌+◌, ◌*◌, Bool, true, false, not, ◌&&◌, Option, none, some, List, [], ◌∷◌, ◌++◌, ◌==◌, ltb,
  leb, find_first, update_many, delete_many, Action, pure, throw, gets, modify, throw_if, or_throw,
  when, branch, ◌>>=◌, ◌>>◌,
}
use printsetu.Print.Types.{Text}

pub data OtpPurpose : Type 0 where
  registration password_reset : OtpPurpose

pub record Verification : Type 0 where
  pub purpose : OtpPurpose
  pub email : Text
  pub code_hash : Text
  pub expires_at : ℕ
  pub attempts : ℕ
  pub sent_at : ℕ

pub data OtpError : Type 0 where
  resend_too_soon email_failed no_code code_expired too_many_tries wrong_code : OtpError

abbrev pub Method : Type 0 → Type 0
Method = Action OtpError (List Verification)

abbrev pub valid_ms : ℕ
valid_ms = 10 * 60000

abbrev pub resend_after_ms : ℕ
resend_after_ms = 60 * 1000

abbrev pub max_attempts : ℕ
max_attempts = 5

abbrev pub same_purpose : OtpPurpose → OtpPurpose → Bool
same_purpose OtpPurpose.registration OtpPurpose.registration = true
same_purpose OtpPurpose.password_reset OtpPurpose.password_reset = true
same_purpose _ _ = false

-- Equality of texts
unfoldable pub same_text : Text → Text → Bool
same_text [] [] = true
same_text (c ∷ s) (d ∷ t) = (c == d) && same_text s t
same_text _ _ = false

-- `{ purpose_email: { purpose, email } }`
unfoldable pub is_for : OtpPurpose → Text → Verification → Bool
is_for purpose email v = same_purpose v.purpose purpose && same_text v.email email

abbrev pub find_code : OtpPurpose → Text → List Verification → Option Verification
find_code purpose email db = find_first (is_for purpose email) db

-- `waitMs > 0`
abbrev pub is_too_soon : ℕ → Option Verification → Bool
is_too_soon now none = false
is_too_soon now (some v) = ltb now (v.sent_at + resend_after_ms)

-- `createHash('sha256')` of the purpose, the address and the code
abbrev pub Hash : Type 0
Hash = OtpPurpose → Text → Text → Text

abbrev pub fresh_code : Hash → ℕ → OtpPurpose → Text → Text → Verification
fresh_code hash now purpose email code = record {
  purpose = purpose;
  email = email;
  code_hash = hash purpose email code;
  expires_at = now + valid_ms;
  attempts = 0;
  sent_at = now;
}

-- `upsert`: the row of the key is replaced, or added.
abbrev pub upserted : Verification → Option Verification → List Verification → List Verification
upserted v none db = db ++ (v ∷ [])
upserted v (some old) db = update_many (is_for v.purpose v.email) (λ _. v) db

-- `consume`: `deleteMany`
unfoldable pub consume : OtpPurpose → Text → Method (Unit {0})
consume purpose email = modify (delete_many (is_for purpose email))

-- What is left when the mail could not be sent.
unfoldable pub give_up : OtpPurpose → Text → Method (Unit {0})
give_up purpose email = consume purpose email >> throw OtpError.email_failed

-- `send`, with the code that was drawn
unfoldable pub send : Hash → ℕ → Bool → OtpPurpose → Text → Text → Method (Unit {0})
send hash now delivered purpose email code = do
  existing ← gets (find_code purpose email)
  throw_if (is_too_soon now existing) OtpError.resend_too_soon
  modify (upserted (fresh_code hash now purpose email code) existing)
  branch delivered (pure tt) (give_up purpose email)

abbrev pub with_attempt : Verification → Verification
with_attempt v = record v { attempts = v.attempts + 1 }

unfoldable pub count_attempt : OtpPurpose → Text → Method (Unit {0})
count_attempt purpose email = modify (update_many (is_for purpose email) with_attempt)

-- `verify`
unfoldable pub verify : Hash → ℕ → OtpPurpose → Text → Text → Method (Unit {0})
verify hash now purpose email code = do
  found ← gets (find_code purpose email)
  v ← or_throw found OtpError.no_code
  throw_if (leb v.expires_at now) OtpError.code_expired
  throw_if (leb max_attempts v.attempts) OtpError.too_many_tries
  when (not (same_text v.code_hash (hash purpose email code)))
      (count_attempt purpose email >> throw OtpError.wrong_code)
