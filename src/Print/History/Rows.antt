-- ===== src/Print/History/Rows.antt =====
-- Orders come with the event of their creation, and go together with their events.
use printsetu.Base.{
  ℕ, false, none, some, List, [], ◌∷◌, ◌++◌, find_first, any, includes, delete_many, ◌==◌,
  if◌then◌else◌, ◌≡◌, refl, inl, inr, Bool-cases, Option-cases, arith, ==_iff, UniqueKeys-append,
  UniqueKeys-delete_many, find_first-append, find_first-delete_many, find_first-holds, ◌>>=◌,
}
use mathlib.Core.Path.{subst}
use mathlib.Core.Option.{some-injective}
use printsetu.Base.Effects.Keeps.{Keeps}
use printsetu.Print.Types.{PrintJobStatus}
use printsetu.Print.Db.{Job, JobEvent, Db, job_key, has_id, lookup}
use printsetu.Print.History.{Trace, IsSound, history, history-append}
use printsetu.Print.Jobs.Confirm.{create_job, insert_job, collides, created_event}
use printsetu.Print.Jobs.Clear.{removed}

module _ (j : Job) (created : j.status ≡ PrintJobStatus.created) where
  fresh : (xs : List Job) → any (collides j) xs ≡ false → find_first (has_id j.id) xs ≡ none
  unfolding collides
  fresh [] h = refl
  fresh (x ∷ xs) h = ground (arith, fresh xs)

  module _ (db : Db) (s : IsSound db) (new : lookup j.id db ≡ none) where
    longer :
        (k : ℕ)
        → history k (insert_job j db).events ≡ (
            if j.id == k
            then history k db.events ++ (PrintJobStatus.created ∷ [])
            else history k db.events)
    longer k = history-append k db.events (created_event j)

    traced_new :
        (x : Job)
        → lookup j.id (insert_job j db) ≡ some x
        → Trace (history j.id (insert_job j db).events) x.status
    traced_new x h =
        let same : some j ≡ some x =
          ground (arith, find_first-append job_key j.id db.jobs (j ∷ [])) in
        let first : history j.id (insert_job j db).events ≡ PrintJobStatus.created ∷ [] =
          ground (arith, longer j.id, s.untracked j.id new) in
        rw (first, ← some-injective j x same, created) Trace.start

    traced_old :
        (k : ℕ) (x : Job)
        → (j.id == k) ≡ false
        → lookup k (insert_job j db) ≡ some x
        → Trace (history k (insert_job j db).events) x.status
    traced_old k x ne h =
        let old : lookup k db ≡ some x =
          ground (arith, find_first-append job_key k db.jobs (j ∷ [])) in
        let same : history k (insert_job j db).events ≡ history k db.events =
          ground (arith, longer k) in
        rw same (s.traced k x old)

    insert_job-IsSound : IsSound (insert_job j db)
    insert_job-IsSound = record {
      unique = UniqueKeys-append job_key db.jobs j s.unique new;
      traced = λ k x h. elim (Bool-cases (j.id == k)) [
        | inl same ↦
            subst
              (λ i.
                lookup i (insert_job j db) ≡ some x
                → Trace (history i (insert_job j db).events) x.status)
              ((==_iff j.id k).0 same) (traced_new x) h
        | inr other ↦ traced_old k x other h
      ];
      untracked = λ k h. elim (Bool-cases (j.id == k)) [
        | inl same ↦ ground (arith, find_first-append job_key k db.jobs (j ∷ []))
        | inr other ↦
            ground (arith, longer k, s.untracked k, find_first-append job_key k db.jobs (j ∷ []))
      ];
    }

  pub create_job-IsSound : Keeps IsSound (create_job j)
  unfolding create_job ◌>>=◌
  create_job-IsSound = record {
    at = λ db s. elim (Bool-cases (any (collides j) db.jobs)) [
      | inl taken ↦ rw taken s
      | inr free ↦ rw free (insert_job-IsSound db s (fresh db.jobs free))
    ];
  }

history-removed :
    (ids : List ℕ) (k : ℕ) (es : List JobEvent)
    → history k (delete_many (λ (e : JobEvent). includes ids e.job_id) es)
      ≡ (if includes ids k then [] else history k es)
unfolding history
history-removed ids k [] = ground arith
history-removed ids k (e ∷ es) = elim (Bool-cases (e.job_id == k)) [
  | inl same ↦
      let id : e.job_id ≡ k = (==_iff e.job_id k).0 same in
      rw id (ground (arith, history-removed ids k es))
  | inr other ↦ ground (arith, history-removed ids k es)
]

module _ (ids : List ℕ) (db : Db) (s : IsSound db) where
  kept :
      (k : ℕ)
      → lookup k (removed ids db)
        ≡ elim (lookup k db) [ none ↦ none | some j ↦ if includes ids j.id then none else some j ]
  unfolding removed
  kept k = find_first-delete_many job_key (λ (j : Job). includes ids j.id) k db.jobs s.unique

  events_kept :
      (k : ℕ)
      → history k (removed ids db).events ≡ (if includes ids k then [] else history k db.events)
  unfolding removed
  events_kept k = history-removed ids k db.events

  included : (k : ℕ) (j : Job) → lookup k db ≡ some j → includes ids j.id ≡ includes ids k
  included k j e =
      let id : j.id ≡ k = (==_iff j.id k).0 (find_first-holds (has_id k) db.jobs j e) in rw id

  pub removed-IsSound : IsSound (removed ids db)
  removed-IsSound = record {
    unique =
        unfold removed in
        UniqueKeys-delete_many job_key (λ (j : Job). includes ids j.id) db.jobs s.unique;
    traced = λ k x h. elim (Option-cases (lookup k db)) [
      | inl missing ↦ cc (rw (kept k, missing) at h)
      | inr (y, e) ↦ elim (Bool-cases (includes ids k)) [
        | inl gone ↦ cc (rw (kept k, e, included k y e, gone) at h)
        | inr stays ↦
            let same : some y ≡ some x = rw (kept k, e, included k y e, stays) at h in
            rw (events_kept k, stays, ← some-injective y x same) (s.traced k y e)
      ]
    ];
    untracked = λ k h. elim (Option-cases (lookup k db)) [
      | inl missing ↦ ground (arith, events_kept k, s.untracked k)
      | inr (y, e) ↦ ground (arith, events_kept k, kept k, included k y)
    ];
  }
