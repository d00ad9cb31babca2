-- ===== src/Print/Jobs/Creation.antt =====
-- Confirming a quote and clearing the history keep the invariant of the orders.
use printsetu.Base.{ℕ, Option, List, refl, inl, inr}
use printsetu.Base.Effects.Keeps.{Keeps, Keeps-bind, keeps_rules}
use printsetu.Print.Db.{Job, Quote, Db, Env, Claims, AuditEntry}
use printsetu.Print.History.{IsSound}
use printsetu.Print.History.Transitions.{KeepsRow, transition-IsSound, IsSound-untouched}
use printsetu.Print.History.Rows.{create_job-IsSound, removed-IsSound}
use printsetu.Print.Jobs.Invariant.{trigger_print-IsSound}
use printsetu.Print.Jobs.Report.{audited}
use printsetu.Print.Jobs.Confirm.{
  confirm_from_quote, confirm_found, place_order, create_order, draw_token, auto_accept, print_now,
  consume, new_job, opening,
}
use printsetu.Print.Quote.{LineInput, create_quote, store_quote}
use printsetu.Print.Quote.Priced.{create_quote_lem}
use printsetu.Print.Jobs.Clear.{clear_history, clear_rows}

consume-IsSound : (env : Env) (q : Quote) (db : Db) → IsSound db → IsSound (consume env q db)
consume-IsSound env q db s = IsSound-untouched db _ refl refl s

numbered-IsSound : (n : ℕ) (db : Db) → IsSound db → IsSound (record db { next_token = n })
numbered-IsSound n db s = IsSound-untouched db _ refl refl s

created-IsSound : (env : Env) (q : Quote) (token : ℕ) → Keeps IsSound (create_order env q token)
unfolding create_order
created-IsSound env q token =
    Keeps-bind _ _ (create_job-IsSound (new_job env q token) refl)
      (λ j. search (keeps_rules, consume-IsSound) depth 12)

draw_token-IsSound : Keeps IsSound draw_token
unfolding draw_token
draw_token-IsSound = search (keeps_rules, numbered-IsSound) depth 12

print_now-IsSound : (env : Env) (j : Job) (shop : ℕ) → Keeps IsSound (print_now env j shop)
unfolding print_now
print_now-IsSound env j shop = search (keeps_rules, trigger_print-IsSound) depth 12

auto_accept-IsSound : (env : Env) (j : Job) (shop : ℕ) → Keeps IsSound (auto_accept env j shop)
unfolding auto_accept
auto_accept-IsSound env j shop = search (keeps_rules, print_now-IsSound) depth 12

opening-KeepsRow : (job : ℕ) → KeepsRow (opening job).change
opening-KeepsRow job x = (refl, refl)

place_order-IsSound : (env : Env) (q : Quote) → Keeps IsSound (place_order env q)
unfolding place_order
place_order-IsSound env q =
    search
      (
        keeps_rules, draw_token-IsSound, created-IsSound, transition-IsSound, opening-KeepsRow,
        auto_accept-IsSound,
      )
      depth 16

-- Confirming a quote keeps the invariant, also where the order could not be created or printed.
pub confirm_from_quote-IsSound :
    (env : Env) (quote : ℕ) (claims : Claims) → Keeps IsSound (confirm_from_quote env quote claims)
unfolding confirm_from_quote confirm_found
confirm_from_quote-IsSound env quote claims = search (keeps_rules, place_order-IsSound) depth 20

cleared-IsSound : (a : AuditEntry) (db : Db) → IsSound db → IsSound (audited a db)
cleared-IsSound a db s = IsSound-untouched db _ refl refl s

clear_rows-IsSound : (shop : Option ℕ) → Keeps IsSound (clear_rows shop)
unfolding clear_rows
clear_rows-IsSound shop = search (keeps_rules, removed-IsSound) depth 14

-- Clearing the history keeps the invariant of the orders that stay.
pub clear_history-IsSound : (shop : Option ℕ) → Keeps IsSound (clear_history shop)
unfolding clear_history
clear_history-IsSound shop = search (keeps_rules, clear_rows-IsSound, cleared-IsSound) depth 14

-- A new quote leaves the orders alone.
pub create_quote-IsSound :
    (env : Env) (dto : List LineInput) (claims : Claims)
    → Keeps IsSound (create_quote env dto claims)
create_quote-IsSound env dto claims = record {
  at = λ db s. elim (create_quote_lem env dto claims db) [
    | inl (e, h) ↦ rw h s
    | inr (q, h, _) ↦ rw h (IsSound-untouched db (store_quote q db) refl refl s)
  ];
}
