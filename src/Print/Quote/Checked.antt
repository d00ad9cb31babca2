-- ===== src/Print/Quote/Checked.antt =====
-- What holds of the lines of a request that pass the checks of `createQuote`.
use printsetu.Base.{
  ℕ, ◌*◌, ◌<◌, true, false, Option, none, some, List, [], ◌∷◌, ◌&&◌, map, any, All, All-imp, Pairs,
  ◌≡◌, refl, sym, ◌∙◌, inl, inr, ◌⊎◌, arith, ◌==◌, ==_iff, Bool-cases, includes, find_first,
  find_many,
}
use mathlib.Core.Path.{subst}
use printsetu.Base.Effects.Reads.{
  Reads, Reads-pure, Reads-gets, Reads-throw_if, Reads-or_throw, Reads-bind,
}
use printsetu.Print.Types.{PrintJobStatus, DocumentStatus, document_status_eq, status_eq_iff}
use printsetu.Print.Db.{Job, JobItem, Document, Db, Claims, lookup}
use printsetu.Print.Quote.{
  LineInput, Line, check_line, check_lines, pages_of, is_in_session, has_active_job, is_running,
  has_repeats,
}

-- An order that is gone, has failed or is cancelled.
abbrev pub IsOver : Option Job → Type 0
IsOver none = Unit {0}
IsOver (some j) =
    (j.status ≡ PrintJobStatus.print_failed)
    ⊎ (j.status ≡ PrintJobStatus.cancelled)
    ⊎ (j.status ≡ PrintJobStatus.deleted)

-- The stored document of a line, and what it is charged for.
pub record IsChecked (claims : Claims) (db : Db) (l : Line) : Type 0 where
  pub document : Document
  pub found :
      find_first (λ (d : Document). d.id == l.input.document_id) db.documents ≡ some document
  pub session : claims.session_id ≡ some document.session_id
  pub shop : claims.shop_id ≡ document.shop_id
  pub present : ¬ (document.status ≡ DocumentStatus.deleted)
  pub analysed : ¬ (document.status ≡ DocumentStatus.analysis_failed)
  pub counted : document.page_count ≡ some l.page_count
  pub printable : 0 < l.page_count
  pub idle :
      All (λ (i : JobItem). i.document_id ≡ document.id → IsOver (lookup i.job_id db)) db.items
  pub billable : l.billable_pages ≡ l.page_count * l.input.copies

-- The documents of the request hold the one of each line.
narrowed :
    (ids : List ℕ) (n : ℕ) (ds : List Document)
    → includes ids n ≡ true
    → find_first (λ (d : Document). d.id == n) (find_many (λ (d : Document). includes ids d.id) ds)
      ≡ find_first (λ (d : Document). d.id == n) ds
narrowed ids n [] h = refl
narrowed ids n (d ∷ ds) h = elim (Bool-cases (d.id == n)) [
  | inl t ↦
      let e = subst (λ m. includes ids m ≡ true) (sym ((==_iff d.id n).0 t)) h in rw (e, t) refl
  | inr f ↦ elim (Bool-cases (includes ids d.id)) [
    | inl t ↦ rw (t, f) (narrowed ids n ds h)
    | inr g ↦ rw (g, f) (narrowed ids n ds h)
  ]
]

abbrev pub ids_of : List LineInput → List ℕ
ids_of is = map (λ (i : LineInput). i.document_id) is

own_ids :
    (is : List LineInput) → All (λ (i : LineInput). includes (ids_of is) i.document_id ≡ true) is
own_ids [] = tt
own_ids (i ∷ is) = (ground arith, All-imp (λ x h. ground arith) is (own_ids is))

-- Every document is asked for once.
pub no_repeats : (ns : List ℕ) → has_repeats ns ≡ false → Pairs (λ (m n : ℕ). ¬ (m ≡ n)) ns
unfolding has_repeats
no_repeats [] h = tt
no_repeats (n ∷ ns) h = (apart ns (ground arith), no_repeats ns (ground arith))
  where
    apart : (ms : List ℕ) → includes ms n ≡ false → All (λ (m : ℕ). ¬ (n ≡ m)) ms
    apart [] g = tt
    apart (m ∷ ms) g = (λ e. ground arith, apart ms (ground arith))

idle_items :
    (document : ℕ) (db : Db) (items : List JobItem)
    → any (λ (i : JobItem). i.document_id == document && is_running (lookup i.job_id db)) items
      ≡ false
    → All (λ (i : JobItem). i.document_id ≡ document → IsOver (lookup i.job_id db)) items
idle_items document db [] h = tt
idle_items document db (i ∷ is) h =
    (λ e. over (lookup i.job_id db) (ground arith), idle_items document db is (ground arith))
  where
    over : (o : Option Job) → is_running o ≡ false → IsOver o
    over none h = tt
    over (some j) h = ground (
      arith,
      status_eq_iff j.status PrintJobStatus.print_failed,
      status_eq_iff j.status PrintJobStatus.cancelled,
      status_eq_iff j.status PrintJobStatus.deleted,
    )

pages_of-some : (o : Option ℕ) (n : ℕ) → pages_of o ≡ some n → (o ≡ some n) × (0 < n)
pages_of-some none n h = cc
pages_of-some (some m) n h = ground arith

not_status : (s t : DocumentStatus) → document_status_eq s t ≡ false → ¬ (s ≡ t)
unfolding document_status_eq
not_status s t h e = ground arith

module _ (claims : Claims) (d : Document) where
  in_session :
      is_in_session claims d ≡ true
      → (claims.session_id ≡ some d.session_id) × (claims.shop_id ≡ d.shop_id)
  in_session h = (ground arith, ground arith)

-- The documents that the request names.
abbrev pub named_in : List ℕ → Db → List Document
named_in ids db = find_many (λ (d : Document). includes ids d.id) db.documents

module _ (claims : Claims) (db : Db) (ids : List ℕ) where
  check_line-Reads :
      (i : LineInput)
      → includes ids i.document_id ≡ true
      → Reads db
          (λ l. (l.input ≡ i) × IsChecked claims db l)
          (check_line claims (named_in ids db) i)
  unfolding check_line has_active_job
  check_line-Reads i listed = Reads-bind _ _ (Reads-or_throw _ _) (λ d found.
      Reads-bind _ _ (Reads-throw_if _ _) (λ _ inside.
        Reads-bind _ _ (Reads-throw_if _ _) (λ _ present.
          Reads-bind _ _ (Reads-or_throw _ _) (λ n counted.
            Reads-bind _ _ (Reads-throw_if _ _) (λ _ analysed.
              Reads-bind _ _ (Reads-gets {Q = λ b. b ≡ has_active_job d.id db} _ refl) (λ b eq.
                Reads-bind _ _ (Reads-throw_if _ _) (λ _ idle.
                  let own = in_session claims d (ground arith) in
                  let pages = pages_of-some d.page_count n counted in
                  Reads-pure _ (
                    refl,
                    record {
                      document = d;
                      found = sym (narrowed ids i.document_id db.documents listed) ∙ found;
                      session = own.0;
                      shop = own.1;
                      present = not_status d.status DocumentStatus.deleted present;
                      analysed = not_status d.status DocumentStatus.analysis_failed analysed;
                      counted = pages.0;
                      printable = pages.1;
                      idle = idle_items d.id db db.items (sym eq ∙ idle);
                      billable = refl;
                    },
                  ))))))))

  check_lines-Reads :
      (is : List LineInput)
      → All (λ (i : LineInput). includes ids i.document_id ≡ true) is
      → Reads db
          (λ ls. (map (λ (l : Line). l.input) ls ≡ is) × All (IsChecked claims db) ls)
          (check_lines claims (named_in ids db) is)
  unfolding check_lines
  check_lines-Reads [] listed = Reads-pure [] (refl, tt)
  check_lines-Reads (i ∷ is) (own, listed) = Reads-bind _ _ (check_line-Reads i own) (λ l (e, c).
      Reads-bind _ _ (check_lines-Reads is listed)
        (λ ls (es, cs). Reads-pure _ (rw (e, es), (c, cs))))

-- The lines of a request, checked against the documents that it names.
pub request-Reads :
    (claims : Claims) (db : Db) (dto : List LineInput) (ds : List Document)
    → ds ≡ named_in (ids_of dto) db
    → Reads db
        (λ ls. (map (λ (l : Line). l.input) ls ≡ dto) × All (IsChecked claims db) ls)
        (check_lines claims ds dto)
request-Reads claims db dto ds named =
    rw named (check_lines-Reads claims db (ids_of dto) dto (own_ids dto))
