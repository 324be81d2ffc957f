-- ===== src/FraudService/Owned.antt =====
-- A transfer from an account that has an owner: the fraud service reads the balance without the
-- headers of a caller, and the account service refuses.
use cn_banking_transaction_s.Base.{
  ℕ, ◌≡◌, refl, Bool, true, false, none, some, List, [], ◌∷◌, ap, Bool-cases, inl, inr,
}
use cn_banking_transaction_s.Base.Table.{lookup}
use cn_banking_transaction_s.Effect.{
  delivered, lost, reply_lost, Script, axios, Result, ok, err, Exec, pure, query, request, ◌>>=◌,
  Response, success, failure,
}
use cn_banking_transaction_s.Types.{TransferInitiatedEvent, Fresh}
use cn_banking_transaction_s.AccountService.{AccountsDb}
use cn_banking_transaction_s.AccountService.Reads.{Balance, get_balance}
use cn_banking_transaction_s.TransferService.{accept}
use cn_banking_transaction_s.Effect.Throws.{Throws, bind-Throws, request-Throws}
use cn_banking_transaction_s.AccountService.Owners.{
  HasOwner, Refused, no_caller, get_balance-Refused,
}
use cn_banking_transaction_s.FraudService.{
  Doubles, FraudWorld, RuleResult, apply_rules, recent_transfer_count, recent_outgoing_total,
}
use cn_banking_transaction_s.FraudService.Consumer.{
  on_accounts_of, get_account_balance, evaluate_rules, insert_activity, persist_activity, is_seen,
  emit_all, if_inserted, process_fraud_event,
}

accept-Throws :
    (w : FraudWorld) (r : Result (Response Balance) × Script × AccountsDb)
    → Refused w.accounts_db r
    → Throws w ((on_accounts_of (λ f db. r) >>= accept) r.1 w)
accept-Throws w (ok (success c b), f, db) h = absurd h
accept-Throws w (ok (failure c x), f, db) h = ap (λ d. record w { accounts_db = d }) h
accept-Throws w (err e, f, db) h = absurd h

get_account_balance-Throws :
    {N : Type 0} (num : Doubles N) (id : ℕ) (f : Script) (w : FraudWorld)
    → HasOwner (lookup id w.accounts_db.accounts)
    → Throws w (get_account_balance num id f w)
unfolding get_account_balance
get_account_balance-Throws num id f w h =
    let m : Exec FraudWorld Balance = on_accounts_of (get_balance no_caller (some id)) >>= accept in
    bind-Throws w (request (axios none) m f w) (λ b. pure (num.of_cents b.balance))
      (request-Throws (axios none) m f w (λ f'.
        accept-Throws w (get_balance no_caller (some id) f' w.accounts_db)
          (get_balance-Refused id f' w.accounts_db h)))

-- A read of the collections throws, or goes on from the same state.
read-Throws :
    {A B : Type 0} (read : FraudWorld → A) (n : A → Exec FraudWorld B) (f : Script) (w : FraudWorld)
    → ((a : A) (f' : Script) → Throws w (n a f' w))
    → Throws w ((query (λ s. (ok (read s), s)) >>= n) f w)
read-Throws read n [] w h = h (read w) []
read-Throws read n (delivered ∷ f) w h = h (read w) f
read-Throws read n (lost ∷ f) w h = refl
read-Throws read n (reply_lost ∷ f) w h = refl

evaluate_rules-Throws :
    {N : Type 0} (num : Doubles N) (e : TransferInitiatedEvent) (f : Script) (w : FraudWorld)
    → HasOwner (lookup e.from_account_id w.accounts_db.accounts)
    → Throws w (evaluate_rules num e f w)
unfolding evaluate_rules
evaluate_rules-Throws {N = N} num e f w h =
    let rules : ℕ → N → N → Exec FraudWorld (List RuleResult) = λ count outgoing balance.
      pure (apply_rules num (num.of_cents e.amount) count outgoing balance) in
    let behind : ℕ → N → Exec FraudWorld (List RuleResult) =
      λ count outgoing. get_account_balance num e.from_account_id >>= rules count outgoing in
    let outgoing_of : FraudWorld → N =
      λ s. recent_outgoing_total num e.base.timestamp e.from_account_id s.activity in
    read-Throws (λ s. recent_transfer_count e.base.timestamp e.from_account_id s.activity)
      (λ count. query (λ s. (ok (outgoing_of s), s)) >>= behind count) f w
      (λ count f1. read-Throws outgoing_of (behind count) f1 w (λ outgoing f2.
        bind-Throws w (get_account_balance num e.from_account_id f2 w) (rules count outgoing)
          (get_account_balance-Throws num e.from_account_id f2 w h)))

-- No alert is stored or sent, and the accounts are as before.
pub record Silent (w w' : FraudWorld) : Type 0 where
  pub same_events : w'.fraud_events ≡ w.fraud_events
  pub same_sent : w'.sent ≡ w.sent
  pub same_accounts : w'.accounts_db ≡ w.accounts_db

Silent-Throws :
    {A : Type 0} (w s : FraudWorld) (r : Result A × Script × FraudWorld)
    → Silent w s
    → Throws s r
    → Silent w r.2
Silent-Throws w s (ok a, f, s') q h = absurd h
Silent-Throws w s (err e, f, s') q h = rw h q

Silent-refl : (w : FraudWorld) → Silent w w
Silent-refl w = record { same_events = refl; same_sent = refl; same_accounts = refl }

module _ {N : Type 0} (num : Doubles N) (sha1 : List ℕ → List ℕ) (fresh : Fresh)
    (e : TransferInitiatedEvent) (w : FraudWorld)
    (owned : HasOwner (lookup e.from_account_id w.accounts_db.accounts)) where
  if_inserted-Silent :
      (inserted : Bool) (f : Script) (s : FraudWorld)
      → Silent w s
      → Silent w (if_inserted num sha1 fresh e inserted f s).2
  unfolding if_inserted
  if_inserted-Silent false f s q = q
  if_inserted-Silent true f s q =
      Silent-Throws w s ((evaluate_rules num e >>= emit_all sha1 fresh e) f s) q (
        bind-Throws s (evaluate_rules num e f s) (emit_all sha1 fresh e)
          (evaluate_rules-Throws num e f s (rw (q.same_accounts) owned)))

  inserted-Silent :
      (f : Script) (r : Result Bool × FraudWorld)
      → Silent w r.1
      → Silent w (((λ f s. (r.0, f, r.1)) >>= if_inserted num sha1 fresh e) f w).2
  inserted-Silent f (ok b, s) q = if_inserted-Silent b f s q
  inserted-Silent f (err x, s) q = q

  insert_activity-Silent : Silent w (insert_activity e w).1
  unfolding insert_activity
  insert_activity-Silent = elim (Bool-cases (is_seen e.base.event_id w.activity)) [
    | inl seen ↦ rw seen (Silent-refl w)
    | inr new ↦ rw new (record { same_events = refl; same_sent = refl; same_accounts = refl })
  ]

  process_some-Silent : (f : Script) → Silent w (process_fraud_event num sha1 fresh (some e) f w).2
  unfolding process_fraud_event persist_activity
  process_some-Silent [] = inserted-Silent [] (insert_activity e w) insert_activity-Silent
  process_some-Silent (delivered ∷ f) =
      inserted-Silent f (insert_activity e w) insert_activity-Silent
  process_some-Silent (lost ∷ f) = Silent-refl w
  process_some-Silent (reply_lost ∷ f) = insert_activity-Silent

-- A transfer from an account that has an owner never raises an alert and never freezes the
-- account, whatever the amount and the activity before it are and whatever calls fail.
pub process_fraud_event-Silent :
    {N : Type 0} (num : Doubles N) (sha1 : List ℕ → List ℕ) (fresh : Fresh)
    (e : TransferInitiatedEvent) (f : Script) (w : FraudWorld)
    → HasOwner (lookup e.from_account_id w.accounts_db.accounts)
    → Silent w (process_fraud_event num sha1 fresh (some e) f w).2
process_fraud_event-Silent num sha1 fresh e f w owned =
    process_some-Silent num sha1 fresh e w owned f
