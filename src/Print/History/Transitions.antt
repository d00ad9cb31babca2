-- ===== src/Print/History/Transitions.antt =====
-- Every write that the services make to the jobs keeps the invariant of the orders.
use printsetu.Base.{
  ℕ, Bool, true, false, none, some, [], ◌∷◌, ◌++◌, find_first, ◌==◌, if◌then◌else◌, ◌≡◌, refl, inl,
  inr, Bool-cases, Option-cases, arith, ==_iff, KeepsKey, map_option, find_first-update_many,
  UniqueKeys-update_many, update_many, find_first-holds,
}
use mathlib.Core.Path.{subst}
use mathlib.Core.Option.{some-injective}
use printsetu.Base.Effects.Keeps.{Keeps, Keeps-modify}
use printsetu.Print.Types.{NotificationEvent, status_eq, status_eq_iff}
use printsetu.Print.StateMachine.{can_transition}
use printsetu.Print.Db.{Job, Db, job_key, has_id, lookup}
use printsetu.Print.Repository.{TransitionOptions, is_expected, moved, event_of, transition, notify}
use printsetu.Print.Repository.Laws.{after, outcome, transition_lem}
use printsetu.Print.History.{Trace, IsSound, history, history-append}

-- The other columns that a method updates leave the key and the status alone.
abbrev pub KeepsRow : (Job → Job) → Type 0
KeepsRow f = (j : Job) → ((f j).id ≡ j.id) × ((f j).status ≡ j.status)

module _ (now : ℕ) (opts : TransitionOptions) (keep : KeepsRow opts.change) where
  keeps_key : KeepsKey job_key opts.change
  keeps_key j = (keep j).0

  moved_key : KeepsKey job_key (moved now opts)
  unfolding moved
  moved_key j = (keep (record j { status = opts.to; updated_at = now })).0

  moved_status : (j : Job) → (moved now opts j).status ≡ opts.to
  unfolding moved
  moved_status j = (keep (record j { status = opts.to; updated_at = now })).1

  module _ (db : Db) (s : IsSound db) where
    found :
        (k : ℕ)
        → lookup k (after now opts db)
          ≡ map_option (λ j. if is_expected opts j then moved now opts j else j) (lookup k db)
    unfolding after
    found k = find_first-update_many job_key (is_expected opts) (moved now opts) k db.jobs moved_key

    untracked_after :
        (j : Job)
        → lookup opts.job_id db ≡ some j
        → (k : ℕ) → lookup k (after now opts db) ≡ none
        → history k (after now opts db).events ≡ []
    unfolding after
    untracked_after j e k h = elim (Bool-cases (opts.job_id == k)) [
      | inl same ↦ ground (arith, found k)
      | inr other ↦
          ground (arith, found k, history-append k db.events (event_of opts), s.untracked k)
    ]

    module _ (j : Job) (e : lookup opts.job_id db ≡ some j)
        (from : status_eq j.status opts.from ≡ true)
        (legal : can_transition opts.from opts.to ≡ true) where
      expected : is_expected opts j ≡ true
      unfolding is_expected
      expected = ground (arith, find_first-holds (has_id opts.job_id) db.jobs j)

      before : Trace (history opts.job_id db.events) opts.from
      before =
          subst (Trace (history opts.job_id db.events)) ((status_eq_iff j.status opts.from).0 from)
            (s.traced opts.job_id j e)

      traced_self :
          (x : Job)
          → lookup opts.job_id (after now opts db) ≡ some x
          → Trace (history opts.job_id (db.events ++ (event_of opts ∷ []))) x.status
      traced_self x h =
          let longer : history opts.job_id (db.events ++ (event_of opts ∷ []))
              ≡ history opts.job_id db.events ++ (opts.to ∷ []) =
            ground (arith, history-append opts.job_id db.events (event_of opts)) in
          let same : some (moved now opts j) ≡ some x =
            ground (arith, found opts.job_id, expected) in
          let st : x.status ≡ opts.to =
            rw (← some-injective (moved now opts j) x same) (moved_status j) in
          rw (longer, st) (Trace.step opts.to before legal)

      unmoved :
          (k : ℕ) (y : Job)
          → (opts.job_id == k) ≡ false
          → lookup k db ≡ some y
          → is_expected opts y ≡ false
      unfolding is_expected
      unmoved k y ne h = ground (arith, find_first-holds (has_id k) db.jobs y)

      traced_other :
          (k : ℕ) (x : Job)
          → (opts.job_id == k) ≡ false
          → lookup k (after now opts db) ≡ some x
          → Trace (history k (db.events ++ (event_of opts ∷ []))) x.status
      traced_other k x ne h = elim (Option-cases (lookup k db)) [
        | inl missing ↦ cc (found k, missing)
        | inr (y, hy) ↦
            let same : some y ≡ some x = ground (arith, found k, unmoved k y ne) in
            let kept : history k (db.events ++ (event_of opts ∷ [])) ≡ history k db.events =
              ground (arith, history-append k db.events (event_of opts)) in
            rw (kept, ← some-injective y x same) (s.traced k y hy)
      ]

      after-IsSound : IsSound (after now opts db)
      unfolding after
      after-IsSound = record {
        unique =
            UniqueKeys-update_many job_key (is_expected opts) (moved now opts) db.jobs moved_key
              s.unique;
        traced = λ k x h. elim (Bool-cases (opts.job_id == k)) [
          | inl same ↦
              subst
                (λ i.
                  lookup i (after now opts db) ≡ some x
                  → Trace (history i (db.events ++ (event_of opts ∷ []))) x.status)
                ((==_iff opts.job_id k).0 same) (traced_self x) h
          | inr other ↦ traced_other k x other h
        ];
        untracked = untracked_after j e;
      }

    outcome-IsSound : IsSound (outcome now opts db).1
    unfolding outcome
    outcome-IsSound = elim (Bool-cases (can_transition opts.from opts.to)) [
      | inr illegal ↦ rw illegal s
      | inl legal ↦ elim (Option-cases (lookup opts.job_id db)) [
        | inl missing ↦ rw (legal, missing) s
        | inr (j, e) ↦ elim (Bool-cases (status_eq j.status opts.from)) [
          | inl from ↦ rw (legal, e, from) (after-IsSound j e from legal)
          | inr other ↦ rw (legal, e, other) s
        ]
      ]
    ]

  -- A transition keeps the invariant, whether it succeeds or throws.
  pub transition-IsSound : Keeps IsSound (transition now opts)
  transition-IsSound = record {
    at = λ db s. rw (transition_lem now opts db keeps_key s.unique) (outcome-IsSound db s);
  }

-- A write that leaves the jobs and their events alone.
pub IsSound-untouched :
    (db db' : Db) → db'.jobs ≡ db.jobs → db'.events ≡ db.events → IsSound db → IsSound db'
IsSound-untouched db db' j e s = record {
  unique = rw j s.unique;
  traced = λ k x h. rw e (s.traced k x (rw j at h));
  untracked = λ k h. rw e (s.untracked k (rw j at h));
}

-- An update of other columns of the jobs.
pub IsSound-update :
    (p : Job → Bool) (f : Job → Job) (db : Db)
    → KeepsRow f
    → IsSound db
    → IsSound (record db { jobs = update_many p f db.jobs })
IsSound-update p f db keep s = record {
  unique = UniqueKeys-update_many job_key p f db.jobs (λ x. (keep x).0) s.unique;
  traced = λ k x h. elim (Option-cases (lookup k db)) [
    | inl missing ↦ cc (found k, missing)
    | inr (y, e) ↦
        let st : x.status ≡ y.status = ground (arith, found k, keep y) in rw st (s.traced k y e)
  ];
  untracked = λ k h. s.untracked k (ground (arith, found k));
}
  where
    found :
        (k : ℕ)
        → find_first (has_id k) (update_many p f db.jobs)
          ≡ map_option (λ x. if p x then f x else x) (lookup k db)
    found k = find_first-update_many job_key p f k db.jobs (λ x. (keep x).0)

pub notify-IsSound :
    (shop job : ℕ) (event : NotificationEvent) → Keeps IsSound (notify shop job event)
unfolding notify
notify-IsSound shop job event = Keeps-modify _ (λ db s. IsSound-untouched db _ refl refl s)
