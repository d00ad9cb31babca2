-- ===== src/Print/StateMachine.antt =====
-- printsetu-backend/src/print/print-job-state-machine.ts
use printsetu.Base.{Bool, List, [], ◌∷◌, any}
use printsetu.Print.Types.{PrintJobStatus, status_eq}

-- `ALLOWED_TRANSITIONS`
unfoldable pub allowed_transitions : PrintJobStatus → List PrintJobStatus
allowed_transitions PrintJobStatus.created =
    PrintJobStatus.print_eligible ∷ PrintJobStatus.cancelled ∷ []
allowed_transitions PrintJobStatus.print_eligible =
    PrintJobStatus.queued ∷ PrintJobStatus.cancelled ∷ []
allowed_transitions PrintJobStatus.queued =
    PrintJobStatus.printing ∷ PrintJobStatus.agent_offline ∷ PrintJobStatus.print_failed ∷ []
allowed_transitions PrintJobStatus.printing =
    PrintJobStatus.printed ∷ PrintJobStatus.print_failed ∷ PrintJobStatus.print_unknown ∷ []
allowed_transitions PrintJobStatus.print_unknown =
    PrintJobStatus.printed ∷ PrintJobStatus.print_failed ∷ []
allowed_transitions PrintJobStatus.agent_offline =
    PrintJobStatus.queued ∷ PrintJobStatus.print_failed ∷ []
allowed_transitions PrintJobStatus.print_failed = PrintJobStatus.queued ∷ []
allowed_transitions PrintJobStatus.printed = PrintJobStatus.retention_pending ∷ []
allowed_transitions PrintJobStatus.retention_pending = PrintJobStatus.deleted ∷ []
allowed_transitions PrintJobStatus.deleted = []
allowed_transitions PrintJobStatus.cancelled = []

-- `canTransition`
unfoldable pub can_transition : PrintJobStatus → PrintJobStatus → Bool
unfolding allowed_transitions status_eq
can_transition from to = any (λ s. status_eq s to) (allowed_transitions from)
