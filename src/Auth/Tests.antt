-- ===== src/Auth/Tests.antt =====
-- A code that is sent, guessed and verified, with a hash that is the code itself.
use printsetu.Base.{true, [], ◌∷◌, ok, ◌≡◌, ◌≢◌, refl, arith, ◌>>=◌}
use printsetu.Auth.EmailOtp.{OtpPurpose, Verification, Hash, same_text, is_for, send, verify}
use printsetu.Auth.Codes.{verify-send}
use printsetu.Auth.Guesses.{Guess, IsWrong, guessed, verify-guessed}
use printsetu.Print.Types.{Text}

abbrev hash : Hash
hash purpose email code = code

abbrev address : Text
address = 97 ∷ 64 ∷ 98 ∷ []

abbrev code : Text
code = 52 ∷ 50 ∷ []

verify-send_example :
    (verify hash 500000 OtpPurpose.registration address code
      (send hash 0 true OtpPurpose.registration address code []).1).0
    ≡ ok tt
unfolding send ◌>>=◌
verify-send_example =
    verify-send hash OtpPurpose.registration address 0 500000 code [] refl (omega arith)

abbrev sent : Verification
sent = record {
  purpose = OtpPurpose.registration;
  email = address;
  code_hash = code;
  expires_at = 600000;
  attempts = 0;
  sent_at = 0;
}

abbrev wrong : Guess
wrong = record { at = 1000; code = [] }

wrong_try : IsWrong hash OtpPurpose.registration address sent wrong
unfolding same_text
wrong_try = (omega arith, refl)

verify-guessed_example :
    (verify hash 500000 OtpPurpose.registration address code (
      guessed hash OtpPurpose.registration address
        (wrong ∷ wrong ∷ wrong ∷ wrong ∷ wrong ∷ [])
        (sent ∷ []))).0
    ≢ ok tt
unfolding is_for same_text
verify-guessed_example =
    verify-guessed hash OtpPurpose.registration address sent
      (wrong ∷ wrong ∷ wrong ∷ wrong ∷ wrong ∷ []) (sent ∷ []) 500000 code refl
      (wrong_try, (wrong_try, (wrong_try, (wrong_try, (wrong_try, tt))))) (omega arith)
