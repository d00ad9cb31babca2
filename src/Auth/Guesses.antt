-- ===== src/Auth/Guesses.antt =====
-- How often a code can be guessed.
use printsetu.Base.{
  ℕ, ◌⊎◌, ◌+◌, ◌<◌, ◌≤◌, length, true, false, some, List, [], ◌∷◌, leb, leb-false, leb_iff, ok,
  update_many, ◌≡◌, ◌≢◌, refl, inl, inr, Bool-cases, arith, ◌>>=◌, All,
}
use native.Mathlib.Numerals.{unary_clauses}
use printsetu.Print.Types.{Text}
use printsetu.Auth.EmailOtp.{
  OtpPurpose, Verification, max_attempts, same_text, is_for, find_code, Hash, with_attempt,
  count_attempt, verify,
}

-- A try: when, and the code.
pub record Guess : Type 0 where
  pub at : ℕ
  pub code : Text

module _ (hash : Hash) (purpose : OtpPurpose) (email : Text) where
  -- The rows after some tries.
  unfoldable pub guessed : List Guess → List Verification → List Verification
  guessed [] db = db
  guessed (g ∷ gs) db = guessed gs (verify hash g.at purpose email g.code db).1

  -- A row that has seen so many tries.
  record HasTries (v : Verification) (n : ℕ) (db : List Verification) : Type 0 where
    row : Verification
    found : find_code purpose email db ≡ some row
    same_hash : row.code_hash ≡ v.code_hash
    same_expiry : row.expires_at ≡ v.expires_at
    tries : (n ≤ row.attempts) ⊎ (max_attempts ≤ row.attempts)

  find-counted :
      (db : List Verification) (v : Verification)
      → find_code purpose email db ≡ some v
      → find_code purpose email (update_many (is_for purpose email) with_attempt db)
        ≡ some (with_attempt v)
  unfolding is_for
  find-counted [] v h = cc
  find-counted (x ∷ db) v h = ground (arith, find-counted db v)

  -- A wrong code before the expiry counts as a try.
  abbrev pub IsWrong : Verification → Guess → Type 0
  IsWrong v g = (g.at < v.expires_at) × (same_text v.code_hash (hash purpose email g.code) ≡ false)

  guess-counts :
      (v : Verification) (n : ℕ) (g : Guess) (db : List Verification)
      → IsWrong v g
      → HasTries v n db
      → HasTries v (n + 1) (verify hash g.at purpose email g.code db).1
  unfolding verify count_attempt ◌>>=◌
  guess-counts v n g db (early, wrong) h =
      let live : leb h.row.expires_at g.at ≡ false = rw h.same_expiry (ground arith) in
      let differs : same_text h.row.code_hash (hash purpose email g.code) ≡ false =
        rw h.same_hash wrong in
      elim (Bool-cases (leb max_attempts h.row.attempts)) [
        | inl full ↦
            rw (h.found, live, full)
              (record {
                row = h.row;
                found = h.found;
                same_hash = h.same_hash;
                same_expiry = h.same_expiry;
                tries = inr ((leb_iff max_attempts h.row.attempts).0 full);
              })
        | inr left ↦
            rw (h.found, live, left, differs)
              (record {
                row = with_attempt h.row;
                found = find-counted db h.row h.found;
                same_hash = h.same_hash;
                same_expiry = h.same_expiry;
                tries = ground (arith, h.tries, leb-false max_attempts h.row.attempts left);
              })
      ]

  guessed-HasTries :
      (v : Verification) (gs : List Guess) (n : ℕ) (db : List Verification)
      → All (IsWrong v) gs
      → HasTries v n db
      → HasTries v (n + length gs) (guessed gs db)
  unfolding guessed
  guessed-HasTries v [] n db wrong h = simp unary_clauses h
  guessed-HasTries v (g ∷ gs) n db (w, wrong) h =
      let rest =
        guessed-HasTries v gs (n + 1) (verify hash g.at purpose email g.code db).1 wrong
          (guess-counts v n g db w h) in
      record {
        row = rest.row;
        found = rest.found;
        same_hash = rest.same_hash;
        same_expiry = rest.same_expiry;
        tries = elim rest.tries [ inl many ↦ inl (omega (arith, many)) | inr full ↦ inr full ];
      }

  -- After as many wrong codes as are allowed, tried before the code expires, no code is accepted, not
  -- even the one that was sent, until a new one is asked for.
  pub verify-guessed :
      (v : Verification) (gs : List Guess) (db : List Verification) (later : ℕ) (code : Text)
      → find_code purpose email db ≡ some v
      → All (IsWrong v) gs
      → max_attempts ≤ length gs
      → (verify hash later purpose email code (guessed gs db)).0 ≢ ok tt
  unfolding verify ◌>>=◌
  verify-guessed v gs db later code found wrong many accepted =
      let start : HasTries v 0 db = record {
        row = v;
        found = found;
        same_hash = refl;
        same_expiry = refl;
        tries = inl (omega arith);
      } in
      let h = guessed-HasTries v gs 0 db wrong start in
      let full : leb max_attempts h.row.attempts ≡ true = ground (arith, h.tries) in
      elim (Bool-cases (leb h.row.expires_at later)) [
        | inl over ↦ cc (rw (h.found, over) at accepted)
        | inr live ↦ cc (rw (h.found, live, full) at accepted)
      ]
