-- ===== src/Print/Types.antt =====
-- The enumerations and rows of printsetu-backend/prisma/schema.prisma that the print services use.
-- An identifier is a number, since the services only compare identifiers; an instant is in
-- milliseconds; an amount of money is in hundredths of the currency, as its column is Decimal(10, 2).
use printsetu.Base.{ℕ, Bool, true, false, List, ◌&&◌, ◌==◌, ◌≡◌, sym, ◌∙◌, ◌↔◌, arith}

-- A text, as its UTF-16 code units.
abbrev pub Text : Type 0
Text = List ℕ

pub data PrintJobStatus : Type 0 where
  created print_eligible queued printing printed retention_pending deleted : PrintJobStatus
  print_failed agent_offline print_unknown cancelled : PrintJobStatus

pub data DocumentStatus : Type 0 where
  uploaded processing processed analysis_failed print_eligible deleted : DocumentStatus

pub data PrinterStatus : Type 0 where
  online offline unknown removed : PrinterStatus

pub data PaperSize : Type 0 where
  a4 a3 letter legal : PaperSize

pub data ColorMode : Type 0 where
  bw color : ColorMode

pub data SideMode : Type 0 where
  simplex duplex : SideMode

pub data NotificationEvent : Type 0 where
  print_queued print_completed print_failed : NotificationEvent

abbrev status_code : PrintJobStatus → ℕ
status_code PrintJobStatus.created = 0
status_code PrintJobStatus.print_eligible = 1
status_code PrintJobStatus.queued = 2
status_code PrintJobStatus.printing = 3
status_code PrintJobStatus.printed = 4
status_code PrintJobStatus.retention_pending = 5
status_code PrintJobStatus.deleted = 6
status_code PrintJobStatus.print_failed = 7
status_code PrintJobStatus.agent_offline = 8
status_code PrintJobStatus.print_unknown = 9
status_code PrintJobStatus.cancelled = 10

-- `a === b` on job statuses.
unfoldable pub status_eq : PrintJobStatus → PrintJobStatus → Bool
status_eq a b = status_code a == status_code b

pub status_eq_iff : (a b : PrintJobStatus) → (status_eq a b ≡ true) ↔ (a ≡ b)
unfolding status_eq
status_eq_iff a b = ground arith

abbrev document_code : DocumentStatus → ℕ
document_code DocumentStatus.uploaded = 0
document_code DocumentStatus.processing = 1
document_code DocumentStatus.processed = 2
document_code DocumentStatus.analysis_failed = 3
document_code DocumentStatus.print_eligible = 4
document_code DocumentStatus.deleted = 5

-- `a === b` on document statuses.
unfoldable pub document_status_eq : DocumentStatus → DocumentStatus → Bool
document_status_eq a b = document_code a == document_code b

abbrev pub is_removed : PrinterStatus → Bool
is_removed PrinterStatus.removed = true
is_removed _ = false

pub record PricingCombo : Type 0 where
  pub paper_size : PaperSize
  pub color_mode : ColorMode
  pub side_mode : SideMode

abbrev paper_code : PaperSize → ℕ
paper_code PaperSize.a4 = 0
paper_code PaperSize.a3 = 1
paper_code PaperSize.letter = 2
paper_code PaperSize.legal = 3

abbrev color_code : ColorMode → ℕ
color_code ColorMode.bw = 0
color_code ColorMode.color = 1

abbrev side_code : SideMode → ℕ
side_code SideMode.simplex = 0
side_code SideMode.duplex = 1

-- `comboKey(a) === comboKey(b)`: the key joins the three names by a bar, which no name holds.
unfoldable pub combo_eq : PricingCombo → PricingCombo → Bool
combo_eq a b =
    paper_code a.paper_size == paper_code b.paper_size
    && color_code a.color_mode == color_code b.color_mode
    && side_code a.side_mode == side_code b.side_mode

pub combo_eq_iff : (a b : PricingCombo) → (combo_eq a b ≡ true) ↔ (a ≡ b)
unfolding combo_eq
combo_eq_iff a b = ground arith

pub combo_eq_euclid :
    (a b c : PricingCombo) → combo_eq a c ≡ true → combo_eq b c ≡ true → combo_eq a b ≡ true
combo_eq_euclid a b c h k =
    (combo_eq_iff a b).1 ((combo_eq_iff a c).0 h ∙ sym ((combo_eq_iff b c).0 k))
