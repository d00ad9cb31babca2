-- ===== src/Print/Retention.antt =====
-- printsetu-backend/src/retention/retention.service.ts: the scheduled jobs that delete the documents of
-- printed orders, and that flag orders of which the Printer App says nothing any more.
use printsetu.Base.{
  ℕ, ◌+◌, ◌*◌, Bool, not, ◌&&◌, Option, none, some, List, [], ◌∷◌, ◌==◌, ltb, map, find_first,
  find_many, update_many, any, refl, pure, gets, modify, when, for_each, ◌>>=◌, ◌>>◌,
}
use printsetu.Base.Effects.Keeps.{Keeps, keeps_rules}
use printsetu.Print.Types.{Text, PrintJobStatus, DocumentStatus, status_eq, document_status_eq}
use printsetu.Print.Db.{Job, JobItem, Document, Db, Method, item_of}
use printsetu.Print.Repository.{TransitionOptions, transition}
use printsetu.Print.History.{IsSound}
use printsetu.Print.History.Transitions.{KeepsRow, transition-IsSound, IsSound-untouched}
use printsetu.Print.Jobs.Reason.{codes}

abbrev pub stale_printing_ms : ℕ
stale_printing_ms = 3 * 60000

abbrev pub find_document : ℕ → List Document → Option Document
find_document i ds = find_first (λ (d : Document). d.id == i) ds

abbrev pub documents_of : List JobItem → List Document → List Document
documents_of [] ds = []
documents_of (i ∷ is) ds =
    let rest = documents_of is ds in
    elim (find_document i.document_id ds) [ none ↦ rest | some d ↦ d ∷ rest ]

-- The documents of an order that are not deleted, as they were read at the start of the sweep.
unfoldable pub pending_documents : Job → Db → List Document
pending_documents j db =
    find_many (λ d. not (document_status_eq d.status DocumentStatus.deleted))
      (documents_of (find_many (item_of j.id) db.items) db.documents)

-- The object store and the clock. `is_deleted` says whether the call that deletes an object succeeds.
pub record Storage : Type 0 where
  pub now : ℕ
  pub is_deleted : Text → Bool

abbrev pub mark_deleted : ℕ → Document → Db → Db
mark_deleted now d db = record db {
  documents =
      update_many (λ (x : Document). x.id == d.id)
        (λ x. record x { status = DocumentStatus.deleted; deleted_at = some now }) db.documents;
}

-- A document whose object could not be deleted keeps its status for the next sweep.
unfoldable pub delete_document : Storage → Document → Method (Unit {0})
delete_document store d = when (store.is_deleted d.s3_key) (modify (mark_deleted store.now d))

abbrev pub purging : ℕ → TransitionOptions
purging job = record {
  job_id = job;
  from = PrintJobStatus.retention_pending;
  to = PrintJobStatus.deleted;
  change = λ j. j;
  agent_attempt_id = none;
  message = some (codes "Print job completed; documents deleted.");
}

unfoldable pub finish_job : Storage → ℕ → Method (Unit {0})
finish_job store job = do transition store.now (purging job); pure tt

abbrev pub failed_any : Storage → List Document → Bool
failed_any store ds = any (λ (d : Document). not (store.is_deleted d.s3_key)) ds

-- One order of the sweep, with the documents it had at the start.
unfoldable pub sweep_job : Storage → ℕ × List Document → Method (Unit {0})
sweep_job store (job, documents) = do
  for_each (delete_document store) documents
  when (not (failed_any store documents)) (finish_job store job)

abbrev pub candidates : Db → List (ℕ × List Document)
candidates db =
    map (λ (j : Job). (j.id, pending_documents j db))
      (find_many (λ j. status_eq j.status PrintJobStatus.retention_pending) db.jobs)

-- `sweep`
unfoldable pub sweep : Storage → Method (Unit {0})
sweep store = do found ← gets candidates; for_each (sweep_job store) found

abbrev pub flagging : ℕ → TransitionOptions
flagging job = record {
  job_id = job;
  from = PrintJobStatus.printing;
  to = PrintJobStatus.print_unknown;
  change = λ j. j;
  agent_attempt_id = none;
  message = some (codes "No agent update received within the expected window.");
}

-- `updatedAt < now - STALE_PRINTING_MS`
unfoldable pub is_stale : ℕ → Job → Bool
is_stale now j =
    status_eq j.status PrintJobStatus.printing && ltb (j.updated_at + stale_printing_ms) now

unfoldable pub flag_job : ℕ → Job → Method (Unit {0})
flag_job now j = do transition now (flagging j.id); pure tt

-- `flagStalePrinting`
unfoldable pub flag_stale_printing : ℕ → Method (Unit {0})
flag_stale_printing now = do
  stale ← gets (λ db. find_many (is_stale now) db.jobs)
  for_each (flag_job now) stale

marked-IsSound : (now : ℕ) (d : Document) (db : Db) → IsSound db → IsSound (mark_deleted now d db)
marked-IsSound now d db s = IsSound-untouched db _ refl refl s

delete_document-IsSound : (store : Storage) (d : Document) → Keeps IsSound (delete_document store d)
unfolding delete_document
delete_document-IsSound store d = search (keeps_rules, marked-IsSound) depth 12

unchanged-KeepsRow : KeepsRow (λ j. j)
unchanged-KeepsRow j = (refl, refl)

finish_job-IsSound : (store : Storage) (job : ℕ) → Keeps IsSound (finish_job store job)
unfolding finish_job
finish_job-IsSound store job = search (keeps_rules, transition-IsSound, unchanged-KeepsRow) depth 12

sweep_job-IsSound : (store : Storage) (c : ℕ × List Document) → Keeps IsSound (sweep_job store c)
unfolding sweep_job
sweep_job-IsSound store (job, ds) =
    search (keeps_rules, delete_document-IsSound, finish_job-IsSound) depth 12

-- A sweep keeps the invariant of the orders, whichever objects could be deleted.
pub sweep-IsSound : (store : Storage) → Keeps IsSound (sweep store)
unfolding sweep
sweep-IsSound store = search (keeps_rules, sweep_job-IsSound) depth 12

flag_job-IsSound : (now : ℕ) (j : Job) → Keeps IsSound (flag_job now j)
unfolding flag_job
flag_job-IsSound now j = search (keeps_rules, transition-IsSound, unchanged-KeepsRow) depth 12

-- Flagging silent orders keeps the invariant too.
pub flag_stale_printing-IsSound : (now : ℕ) → Keeps IsSound (flag_stale_printing now)
unfolding flag_stale_printing
flag_stale_printing-IsSound now = search (keeps_rules, flag_job-IsSound) depth 12
