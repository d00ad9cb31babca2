-- ===== src/Print/Jobs/Waiting.antt =====
-- The queue of a shop beside the state machine of the orders.
use printsetu.Base.{
  ℕ, ◌≤◌, Bool, true, false, List, [], ◌∷◌, leb, leb_iff, leb-false, find_many, count, ◌≡◌, refl,
  ◌∙◌, arith, ==_iff, inl, inr, Bool-cases, All, All-imp, Pairs,
}
use printsetu.Print.Types.{PrintJobStatus, status_eq}
use printsetu.Print.Db.{Job, Db}
use printsetu.Print.StateMachine.{allowed_transitions, can_transition}
use printsetu.Print.Jobs.Listings.{
  is_unfinished, is_in_queue, insert_by_age, order_by_age, shop_queue,
}

-- The order has been released for printing, and what it has become since is by legal steps.
pub data WasReleased : PrintJobStatus → Type 0 where
  released : WasReleased PrintJobStatus.print_eligible
  then' : {s t : PrintJobStatus} → WasReleased s → can_transition s t ≡ true → WasReleased t

-- Legal steps, one at least, lead to the printed order.
pub data CanBePrinted : PrintJobStatus → Type 0 where
  last : {s : PrintJobStatus} → can_transition s PrintJobStatus.printed ≡ true → CanBePrinted s
  first : {s t : PrintJobStatus} → can_transition s t ≡ true → CanBePrinted t → CanBePrinted s

-- Only a new order is not released yet, and nothing leads back to it.
abbrev is_new : PrintJobStatus → Bool
is_new PrintJobStatus.created = true
is_new _ = false

-- Nothing is printed any more.
abbrev is_closed : PrintJobStatus → Bool
is_closed PrintJobStatus.printed = true
is_closed PrintJobStatus.retention_pending = true
is_closed PrintJobStatus.deleted = true
is_closed PrintJobStatus.cancelled = true
is_closed _ = false

not_new : (s t : PrintJobStatus) → can_transition s t ≡ true → is_new t ≡ false
unfolding can_transition allowed_transitions status_eq
not_new s t e = ground arith

stays_closed :
    (s t : PrintJobStatus) → can_transition s t ≡ true → is_closed t ≡ false → is_closed s ≡ false
unfolding can_transition allowed_transitions status_eq
stays_closed s t e f = ground arith

WasReleased-is_new : (s : PrintJobStatus) → WasReleased s → is_new s ≡ false
WasReleased-is_new s WasReleased.released = refl
WasReleased-is_new t (WasReleased.then' {s} r e) = not_new s t e

CanBePrinted-is_closed : (s : PrintJobStatus) → CanBePrinted s → is_closed s ≡ false
unfolding can_transition allowed_transitions status_eq
CanBePrinted-is_closed s (CanBePrinted.last e) = ground arith
CanBePrinted-is_closed s (CanBePrinted.first {t = t} e c) =
    stays_closed s t e (CanBePrinted-is_closed t c)

unfinished : (s : PrintJobStatus) → is_new s ≡ false → is_closed s ≡ false → is_unfinished s ≡ true
unfinished s n c = ground arith

-- An earlier order stands before a later one.
abbrev pub IsOlder : Job → Job → Type 0
IsOlder a b = a.created_at ≤ b.created_at

module _ (R : Job → Type 0) where
  All-insert_by_age : (j : Job) (js : List Job) → R j → All R js → All R (insert_by_age j js)
  unfolding insert_by_age
  All-insert_by_age j [] r h = (r, tt)
  All-insert_by_age j (x ∷ xs) r (hx, h) = elim (Bool-cases (leb j.created_at x.created_at)) [
    | inl t ↦ rw t (r, (hx, h))
    | inr f ↦ rw f (hx, All-insert_by_age j xs r h)
  ]

  All-order_by_age : (js : List Job) → All R js → All R (order_by_age js)
  unfolding order_by_age
  All-order_by_age [] h = tt
  All-order_by_age (j ∷ js) (r, h) = All-insert_by_age j (order_by_age js) r (All-order_by_age js h)

IsOlder-trans :
    (j x : Job) → IsOlder j x → (xs : List Job) → All (IsOlder x) xs → All (IsOlder j) xs
IsOlder-trans j x le xs h = All-imp (λ y older. omega (arith, le, older)) xs h

Pairs-insert_by_age :
    (j : Job) (js : List Job) → Pairs IsOlder js → Pairs IsOlder (insert_by_age j js)
unfolding insert_by_age
Pairs-insert_by_age j [] h = (tt, tt)
Pairs-insert_by_age j (x ∷ xs) (hx, h) = elim (Bool-cases (leb j.created_at x.created_at)) [
  | inl t ↦
      let le = (leb_iff j.created_at x.created_at).0 t in
      rw t ((le, IsOlder-trans j x le xs hx), (hx, h))
  | inr f ↦
      let lt = leb-false j.created_at x.created_at f in
      rw f (All-insert_by_age (IsOlder x) j xs (omega arith) hx, Pairs-insert_by_age j xs h)
]

Pairs-order_by_age : (js : List Job) → Pairs IsOlder (order_by_age js)
unfolding order_by_age
Pairs-order_by_age [] = tt
Pairs-order_by_age (j ∷ js) = Pairs-insert_by_age j (order_by_age js) (Pairs-order_by_age js)

All-find_many : (p : Job → Bool) (js : List Job) → All (λ j. p j ≡ true) (find_many p js)
All-find_many p [] = tt
All-find_many p (j ∷ js) = elim (Bool-cases (p j)) [
  | inl t ↦ rw t (t, All-find_many p js)
  | inr f ↦ rw f (All-find_many p js)
]

module _ (p : Job → Bool) where
  count-insert_by_age : (j : Job) (js : List Job) → count p (insert_by_age j js) ≡ count p (j ∷ js)
  unfolding insert_by_age
  count-insert_by_age j [] = refl
  count-insert_by_age j (x ∷ xs) = ground (arith, count-insert_by_age j xs)

  count-order_by_age : (js : List Job) → count p (order_by_age js) ≡ count p js
  unfolding order_by_age
  count-order_by_age [] = refl
  count-order_by_age (j ∷ js) =
      ground (arith, count-insert_by_age j (order_by_age js), count-order_by_age js)

  count-find_many :
      (q : Job → Bool) (js : List Job)
      → ((j : Job) → p j ≡ true → q j ≡ true)
      → count p (find_many q js) ≡ count p js
  count-find_many q [] h = refl
  count-find_many q (j ∷ js) h = ground (arith, h j, count-find_many q js h)

queued :
    (now shop : ℕ) (j : Job)
    → (j.shop_id ≡ shop) × WasReleased j.status × CanBePrinted j.status
    → is_in_queue now shop j ≡ true
unfolding is_in_queue
queued now shop j (s, r, c) =
    let u =
      unfinished j.status (WasReleased-is_new j.status r) (CanBePrinted-is_closed j.status c) in
    ground (arith, (==_iff j.shop_id shop).1 s, u)

own_shop : (now shop : ℕ) (j : Job) → is_in_queue now shop j ≡ true → j.shop_id ≡ shop
unfolding is_in_queue
own_shop now shop j h = ground arith

-- The queue of a shop holds orders of that shop only, the oldest first. Orders of the shop that were
-- released for printing and can still become printed, by the legal steps of the state machine, stand in
-- it as often as in the table, however they are picked out and whatever their age.
pub shop_queue_lem :
    (now shop : ℕ) (p : Job → Bool) (db : Db)
    → ((j : Job) → p j ≡ true → (j.shop_id ≡ shop) × WasReleased j.status × CanBePrinted j.status)
    → (count p (shop_queue now shop db) ≡ count p db.jobs)
      × All (λ j. j.shop_id ≡ shop) (shop_queue now shop db)
      × Pairs IsOlder (shop_queue now shop db)
unfolding shop_queue
shop_queue_lem now shop p db h =
    let rows = find_many (is_in_queue now shop) db.jobs in
    (
      count-order_by_age p rows
          ∙ count-find_many p (is_in_queue now shop) db.jobs (λ j e. queued now shop j (h j e)),
      All-order_by_age (λ j. j.shop_id ≡ shop) rows
          (All-imp (own_shop now shop) rows (All-find_many (is_in_queue now shop) db.jobs)),
      Pairs-order_by_age rows,
    )
