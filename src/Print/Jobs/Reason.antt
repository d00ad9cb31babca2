-- ===== src/Print/Jobs/Reason.antt =====
-- `agentFailureReason` of printsetu-backend/src/print/print-jobs.service.ts: what is stored as the
-- reason of a failed print. Texts are lists of UTF-16 code units, as `slice` and `length` count them.
pub mod Bounds
use Prim.Native.Char.{code}
use Prim.Native.String.{String}
use mathlib.Core.List.{reverse}
use printsetu.Base.{
  ℕ, zero, suc, ◌-◌, Bool, ◌||◌, ◌&&◌, Option, none, some, [], ◌∷◌, ◌++◌, ◌==◌, ltb, leb,
  if◌then◌else◌, length, any,
}
use printsetu.Print.Types.{Text}

-- The characters of a literal of the source, all in the basic plane.
abbrev pub codes : String → Text
codes String.[] = []
codes (String.◌∷◌ c s) = code c ∷ codes s

-- White space and line terminators, which `trim` removes.
unfoldable pub is_space : ℕ → Bool
is_space c =
    (leb 9 c && leb c 13)
    || c == 32
    || c == 160
    || c == 0x1680
    || (leb 0x2000 c && leb c 0x200a)
    || any (λ x. x == c) (0x2028 ∷ 0x2029 ∷ 0x202f ∷ 0x205f ∷ 0x3000 ∷ 0xfeff ∷ [])

unfoldable pub trim_start : Text → Text
trim_start [] = []
trim_start (c ∷ s) = if is_space c then trim_start s else c ∷ s

unfoldable pub trim : Text → Text
unfolding trim_start
trim s = reverse (trim_start (reverse (trim_start s)))

abbrev pub take : ℕ → Text → Text
take zero s = []
take (suc n) [] = []
take (suc n) (c ∷ s) = c ∷ take n s

abbrev pub max_failure_reason_length : ℕ
max_failure_reason_length = 4000

-- The parts of `AgentJobStatusDto` that tell the reason.
pub record Failure : Type 0 where
  pub message : Option Text
  pub error_code : Option Text
  pub error_detail : Option Text

abbrev or_default : Text → Text → Text
or_default d [] = d
or_default d (c ∷ s) = c ∷ s

-- `message?.trim() || default`
unfoldable pub summary_of : Option Text → Text
summary_of none = codes "The Printer App did not say why printing failed."
summary_of (some m) = or_default (codes "The Printer App did not say why printing failed.") (trim m)

-- `errorCode && [errorCode]`: an empty code is left out.
unfoldable pub bracketed : Option Text → Text
bracketed none = []
bracketed (some []) = []
bracketed (some (c ∷ s)) = codes "[" ++ ((c ∷ s) ++ codes "]")

unfoldable pub detail_of : Option Text → Text
detail_of none = []
detail_of (some d) = trim d

-- `[code, detail].filter(Boolean).join(' ')`
unfoldable pub join_parts : Text → Text → Text
join_parts [] d = d
join_parts (c ∷ s) [] = c ∷ s
join_parts (c ∷ s) (e ∷ d) = (c ∷ s) ++ (codes " " ++ (e ∷ d))

unfoldable pub with_details : Text → Text → Text
with_details summary [] = summary
with_details summary (c ∷ s) = summary ++ (codes "\n\nTechnical details: " ++ (c ∷ s))

-- The whole text, or its beginning and an ellipsis.
unfoldable pub truncated : Text → Text
truncated reason =
    if ltb max_failure_reason_length (length reason)
    then take (max_failure_reason_length - 1) reason ++ (0x2026 ∷ [])
    else reason

-- `agentFailureReason`
unfoldable pub agent_failure_reason : Failure → Text
unfolding summary_of bracketed detail_of join_parts with_details
agent_failure_reason dto = truncated (
    with_details (summary_of dto.message)
      (join_parts (bracketed dto.error_code) (detail_of dto.error_detail)))
