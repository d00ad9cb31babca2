-- ===== src/Print/Jobs/Reason/Bounds.antt =====
-- How much of a failure's text is stored.
use printsetu.Base.{
  ℕ, zero, suc, ◌≤◌, ◌<◌, min, [], ◌∷◌, ◌++◌, ltb, ltb_iff, ltb-false, length, length-append, ◌≡◌,
  refl, ◌∙◌, inl, inr, Bool-cases, arith, if◌then◌else◌,
}
use printsetu.Print.Types.{Text}
use printsetu.Print.Jobs.Reason.{
  take, truncated, agent_failure_reason, Failure, with_details, summary_of, join_parts, bracketed,
  detail_of,
}

length-take : (n : ℕ) (s : Text) → length (take n s) ≡ min n (length s)
length-take zero s = omega arith
length-take (suc n) [] = omega arith
length-take (suc n) (c ∷ s) = omega (arith, length-take n s)

take-append : (n : ℕ) (s t : Text) → n ≤ length s → take n (s ++ t) ≡ take n s
take-append zero s t h = refl
take-append (suc n) [] t h = ground arith
take-append (suc n) (c ∷ s) t h = rw (take-append n s t (omega arith))

take-take : (n : ℕ) (s : Text) → take n (take n s) ≡ take n s
take-take zero s = refl
take-take (suc n) [] = refl
take-take (suc n) (c ∷ s) = rw (take-take n s)

-- The whole text of a failure.
abbrev pub full_reason : Failure → Text
full_reason f =
    with_details (summary_of f.message)
      (join_parts (bracketed f.error_code) (detail_of f.error_detail))

-- The beginning of a longer text, and one mark after it.
cut :
    (n mark : ℕ) (s : Text)
    → n < length s
    → (length (take n s ++ (mark ∷ [])) ≡ suc n) × (take n (take n s ++ (mark ∷ [])) ≡ take n s)
cut n mark s h = (
  omega (arith, length-append (take n s) (mark ∷ []), length-take n s),
  take-append n (take n s) (mark ∷ []) (omega (arith, length-take n s)) ∙ take-take n s,
)

abbrev Fits : ℕ → Text → Text → Type 0
Fits n whole stored = (length stored ≡ min (suc n) (length whole)) × (take n stored ≡ take n whole)

cut-Fits :
    (n mark : ℕ) (s : Text)
    → Fits n s (if ltb (suc n) (length s) then take n s ++ (mark ∷ []) else s)
cut-Fits n mark s = elim (Bool-cases (ltb (suc n) (length s))) [
  | inl long ↦
      let more : suc n < length s = (ltb_iff (suc n) (length s)).0 long in
      let c = cut n mark s (omega arith) in rw long (omega (arith, c.0), c.1)
  | inr short ↦
      let less : length s ≤ suc n = ltb-false (suc n) (length s) short in
      rw short (omega arith, refl)
]

-- What is stored of a failure is as long as its whole text, but no longer than 4000 characters, and the
-- first 3999 characters are those of the whole text.
pub agent_failure_reason_lem :
    (f : Failure)
    → (length (agent_failure_reason f) ≡ min 4000 (length (full_reason f)))
      × (take 3999 (agent_failure_reason f) ≡ take 3999 (full_reason f))
unfolding agent_failure_reason truncated
agent_failure_reason_lem f = cut-Fits 3999 0x2026 (full_reason f)
