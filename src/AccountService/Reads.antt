-- ===== src/AccountService/Reads.antt =====
-- services/account-service/src/routes.ts: the routes that read an account.
use cn_banking_transaction_s.Base.{
  ℕ, Bool, true, false, ◌||◌, String, Option, none, some, str_eq, ◌==◌, if◌then◌else◌,
}
use cn_banking_transaction_s.Effect.{
  Exec, pure, query, catch, ◌>>=◌, Response, success, failure, validation_error, forbidden,
  not_found,
}
use cn_banking_transaction_s.Types.{Account}
use cn_banking_transaction_s.AccountService.{AccountsDb, select_account}
use cn_banking_transaction_s.AccountService.Routes.{database_failure}

-- The caller as the gateway's headers x-user-id and x-user-role state it.
pub record Caller : Type 0 where
  pub user : Option ℕ
  pub role : Option String

-- requestingRole === 'admin'
unfoldable pub is_admin : Option String → Bool
is_admin none = false
is_admin (some role) = str_eq role "admin"

unfoldable pub is_owner : Option ℕ → Option ℕ → Bool
is_owner none user = true
is_owner (some owner) none = false
is_owner (some owner) (some user) = owner == user

unfoldable pub may_read : Caller → Account → Bool
unfolding is_admin is_owner
may_read caller a = is_admin caller.role || is_owner a.owner_id caller.user

unfoldable pub read_reply : Caller → Option Account → Exec AccountsDb (Response Account)
unfolding may_read
read_reply caller none = pure (failure 404 not_found)
read_reply caller (some a) =
    pure (if may_read caller a then success 200 a else failure 403 forbidden)

-- GET /accounts/:id
unfoldable pub get_account : Caller → Option ℕ → Exec AccountsDb (Response Account)
unfolding read_reply database_failure
get_account caller none = pure (failure 400 validation_error)
get_account caller (some id) =
    catch (query (select_account id) >>= read_reply caller) database_failure

pub record Balance : Type 0 where
  pub id : ℕ
  pub balance : ℕ

unfoldable pub balance_reply : Caller → Option Account → Exec AccountsDb (Response Balance)
unfolding may_read
balance_reply caller none = pure (failure 404 not_found)
balance_reply caller (some a) = pure (
    if may_read caller a
    then success 200 (record { id = a.id; balance = a.balance })
    else failure 403 forbidden)

-- GET /accounts/:id/balance
unfoldable pub get_balance : Caller → Option ℕ → Exec AccountsDb (Response Balance)
unfolding balance_reply database_failure
get_balance caller none = pure (failure 400 validation_error)
get_balance caller (some id) =
    catch (query (select_account id) >>= balance_reply caller) database_failure
