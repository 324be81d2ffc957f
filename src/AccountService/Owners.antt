-- ===== src/AccountService/Owners.antt =====
-- services/account-service/src/routes.ts: an account that has an owner is not shown to a request
-- without the headers of a caller.
use cn_banking_transaction_s.Base.{◌≡◌, refl, ℕ, Option, none, some, [], ◌∷◌}
use cn_banking_transaction_s.Base.Table.{lookup}
use cn_banking_transaction_s.Effect.{
  delivered, lost, reply_lost, Script, Result, ok, err, catch, Response, success, failure,
}
use cn_banking_transaction_s.Types.{Account}
use cn_banking_transaction_s.AccountService.{AccountsDb}
use cn_banking_transaction_s.AccountService.Routes.{database_failure}
use cn_banking_transaction_s.AccountService.Reads.{
  Caller, get_balance, balance_reply, get_account, read_reply, may_read, is_admin, is_owner,
}

-- A request with neither x-user-id nor x-user-role.
abbrev pub no_caller : Caller
no_caller = record { user = none; role = none }

-- The row is there and has an owner.
abbrev pub HasOwner : Option Account → Type 0
HasOwner none = ⊥
HasOwner (some a) = (owner : ℕ) × (a.owner_id ≡ some owner)

-- An answer that is an error, from a database that is as before.
abbrev pub Refused : {A : Type 0} → AccountsDb → Result (Response A) × Script × AccountsDb → Type 0
Refused db (ok (success c b), f, db') = ⊥
Refused db (ok (failure c x), f, db') = db' ≡ db
Refused db (err e, f, db') = ⊥

balance_reply-Refused :
    (r : Option Account) (f : Script) (db : AccountsDb)
    → HasOwner r
    → Refused db (catch (balance_reply no_caller r) database_failure f db)
unfolding balance_reply may_read is_admin is_owner
balance_reply-Refused none f db h = absurd h
balance_reply-Refused (some a) f db h = rw (h.1) refl

pub get_balance-Refused :
    (id : ℕ) (f : Script) (db : AccountsDb)
    → HasOwner (lookup id db.accounts)
    → Refused db (get_balance no_caller (some id) f db)
unfolding get_balance database_failure
get_balance-Refused id [] db h = balance_reply-Refused (lookup id db.accounts) [] db h
get_balance-Refused id (delivered ∷ f) db h = balance_reply-Refused (lookup id db.accounts) f db h
get_balance-Refused id (lost ∷ f) db h = refl
get_balance-Refused id (reply_lost ∷ f) db h = refl

read_reply-Refused :
    (r : Option Account) (f : Script) (db : AccountsDb)
    → HasOwner r
    → Refused db (catch (read_reply no_caller r) database_failure f db)
unfolding read_reply may_read is_admin is_owner
read_reply-Refused none f db h = absurd h
read_reply-Refused (some a) f db h = rw (h.1) refl

pub get_account-Refused :
    (id : ℕ) (f : Script) (db : AccountsDb)
    → HasOwner (lookup id db.accounts)
    → Refused db (get_account no_caller (some id) f db)
unfolding get_account database_failure
get_account-Refused id [] db h = read_reply-Refused (lookup id db.accounts) [] db h
get_account-Refused id (delivered ∷ f) db h = read_reply-Refused (lookup id db.accounts) f db h
get_account-Refused id (lost ∷ f) db h = refl
get_account-Refused id (reply_lost ∷ f) db h = refl
