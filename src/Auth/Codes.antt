-- ===== src/Auth/Codes.antt =====
-- What a code that was sent by email is good for, and how often it can be guessed.
use printsetu.Base.{
  ℕ, ◌+◌, ◌<◌, Bool, true, none, some, List, [], ◌∷◌, ◌++◌, ok, find_first, update_many, ◌≡◌, refl,
  inl, inr, Bool-cases, Option-cases, arith, ◌>>=◌,
}
use printsetu.Print.Types.{Text}
use printsetu.Auth.EmailOtp.{
  OtpPurpose, Verification, valid_ms, same_purpose, same_text, is_for, find_code, is_too_soon, Hash,
  fresh_code, upserted, send, verify,
}

same_text_refl : (s : Text) → same_text s s ≡ true
unfolding same_text
same_text_refl [] = refl
same_text_refl (c ∷ s) = ground (arith, same_text_refl s)

same_purpose_refl : (p : OtpPurpose) → same_purpose p p ≡ true
same_purpose_refl OtpPurpose.registration = refl
same_purpose_refl OtpPurpose.password_reset = refl

module _ (q : Verification → Bool) (v : Verification) (own : q v ≡ true) where
  find-added :
      (db : List Verification) → find_first q db ≡ none → find_first q (db ++ (v ∷ [])) ≡ some v
  find-added [] h = rw own refl
  find-added (w ∷ db) h = ground (arith, find-added db)

  find-replaced :
      (db : List Verification) (w : Verification)
      → find_first q db ≡ some w
      → find_first q (update_many q (λ _. v) db) ≡ some v
  find-replaced [] w h = cc
  find-replaced (x ∷ db) w h = ground (arith, find-replaced db w)

module _ (hash : Hash) (purpose : OtpPurpose) (email : Text) where
  fresh_own :
      (now : ℕ) (code : Text) → is_for purpose email (fresh_code hash now purpose email code) ≡ true
  unfolding is_for
  fresh_own now code = rw (same_purpose_refl purpose, same_text_refl email) refl

  find-upserted :
      (now : ℕ) (code : Text) (db : List Verification)
      → let v = fresh_code hash now purpose email code in
        find_code purpose email (upserted v (find_code purpose email db) db) ≡ some v
  find-upserted now code db =
      let v = fresh_code hash now purpose email code in
      elim (Option-cases (find_code purpose email db)) [
        | inl e ↦ rw e (find-added (is_for purpose email) v (fresh_own now code) db e)
        | inr (w, e) ↦ rw e (find-replaced (is_for purpose email) v (fresh_own now code) db w e)
      ]

  -- A code that was sent verifies with the same hash for as long as it is valid, whatever was there
  -- before: where sending returned at `now`, the code is accepted at any time before ten minutes have
  -- passed.
  pub verify-send :
      (now later : ℕ) (code : Text) (db : List Verification)
      → (send hash now true purpose email code db).0 ≡ ok tt
      → later < now + valid_ms
      → (verify hash later purpose email code (send hash now true purpose email code db).1).0
        ≡ ok tt
  unfolding send verify ◌>>=◌
  verify-send now later code db sent soon =
      elim (Bool-cases (is_too_soon now (find_code purpose email db))) [
        | inl early ↦ cc (rw early at sent)
        | inr due ↦
            rw (due, find-upserted now code db, same_text_refl (hash purpose email code))
              (ground arith)
      ]
