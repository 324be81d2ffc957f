-- ===== src/AccountService/Routes.antt =====
-- services/account-service/src/routes.ts: the routes. A request holds what zod and the SQL driver
-- make of it: the path's id as a UUID, where it is one; the body's fields, where they are there.
use cn_banking_transaction_s.Base.{
  ℕ, Bool, true, not, ◌||◌, String, Option, none, some, List, str_eq, if◌then◌else◌,
}
use cn_banking_transaction_s.Effect.{
  Thrown, Exec, pure, query, catch, ◌>>=◌, validation_error, forbidden, not_found, account_frozen,
  kyc_not_verified, insufficient_funds_code, database_error, Response, success, failure,
}
use cn_banking_transaction_s.Types.{Account, AccountKycStatus}
use cn_banking_transaction_s.Money.{positive_money}
use cn_banking_transaction_s.AccountService.{
  AccountsDb, is_suspended, is_verified, debit_statement, credit_statement, freeze_statement,
  kyc_statement, on_accounts, select_account,
}

-- `requireServiceToken`: a secret that is missing or empty lets every request pass.
unfoldable pub require_service_token : Option String → Option String → Bool
require_service_token none token = true
require_service_token (some secret) none = str_eq secret ""
require_service_token (some secret) (some token) = str_eq secret "" || str_eq token secret

pub record AmountRequest : Type 0 where
  pub service_token : Option String
  pub id : Option ℕ
  pub amount : Option (List ℕ)

unfoldable pub database_failure : {A : Type 0} → Thrown → Exec AccountsDb (Response A)
database_failure e = pure (failure 500 database_error)

-- The answer of an UPDATE, where a missing row has one reason only.
unfoldable pub found_or_404 : Option Account → Exec AccountsDb (Response Account)
found_or_404 none = pure (failure 404 not_found)
found_or_404 (some a) = pure (success 200 a)

-- Why an UPDATE of the debit wrote no row.
unfoldable pub refuse_debit : Option Account → Response Account
refuse_debit none = failure 404 not_found
refuse_debit (some a) =
    if is_suspended a.status
    then failure 423 account_frozen
    else if not (is_verified a.kyc_status)
    then failure 422 kyc_not_verified
    else failure 422 insufficient_funds_code

unfoldable pub debit_reply : ℕ → Option Account → Exec AccountsDb (Response Account)
unfolding refuse_debit
debit_reply id (some a) = pure (success 200 a)
debit_reply id none = do existing ← query (select_account id); pure (refuse_debit existing)

unfoldable pub debit_valid : ℕ → ℕ → ℕ → Exec AccountsDb (Response Account)
unfolding debit_reply database_failure
debit_valid now id amount =
    catch (query (on_accounts (debit_statement now amount id)) >>= debit_reply id) database_failure

-- PATCH /accounts/:id/debit
unfoldable pub debit_account :
    Option String → ℕ → AmountRequest → Exec AccountsDb (Response Account)
unfolding require_service_token
debit_account secret now req =
    if not (require_service_token secret req.service_token)
    then pure (failure 403 forbidden)
    else elim req.id [
      | none ↦ pure (failure 400 validation_error)
      | some id ↦ elim (positive_money req.amount) [
        | none ↦ pure (failure 400 validation_error)
        | some amount ↦ debit_valid now id amount
      ]
    ]

-- Why an UPDATE of the credit wrote no row.
unfoldable pub refuse_credit : Option Account → Response Account
refuse_credit none = failure 404 not_found
refuse_credit (some a) =
    if is_suspended a.status then failure 423 account_frozen else failure 404 not_found

unfoldable pub credit_reply : ℕ → Option Account → Exec AccountsDb (Response Account)
unfolding refuse_credit
credit_reply id (some a) = pure (success 200 a)
credit_reply id none = do existing ← query (select_account id); pure (refuse_credit existing)

unfoldable pub credit_valid : ℕ → ℕ → ℕ → Exec AccountsDb (Response Account)
unfolding credit_reply database_failure
credit_valid now id amount =
    catch (query (on_accounts (credit_statement now amount id)) >>= credit_reply id)
      database_failure

-- PATCH /accounts/:id/credit
unfoldable pub credit_account :
    Option String → ℕ → AmountRequest → Exec AccountsDb (Response Account)
unfolding require_service_token
credit_account secret now req =
    if not (require_service_token secret req.service_token)
    then pure (failure 403 forbidden)
    else elim req.id [
      | none ↦ pure (failure 400 validation_error)
      | some id ↦ elim (positive_money req.amount) [
        | none ↦ pure (failure 400 validation_error)
        | some amount ↦ credit_valid now id amount
      ]
    ]

-- POST /accounts/:id/freeze
unfoldable pub freeze_account : ℕ → Option ℕ → Exec AccountsDb (Response Account)
unfolding found_or_404 database_failure
freeze_account now none = pure (failure 400 validation_error)
freeze_account now (some id) =
    catch (query (on_accounts (freeze_statement now id)) >>= found_or_404) database_failure

-- PATCH /accounts/:id/kyc; the second argument is what `UpdateKycStatusSchema` makes of the body.
unfoldable pub update_kyc_status :
    ℕ → Option AccountKycStatus → Option ℕ → Exec AccountsDb (Response Account)
unfolding found_or_404 database_failure
update_kyc_status now status none = pure (failure 400 validation_error)
update_kyc_status now none (some id) = pure (failure 400 validation_error)
update_kyc_status now (some status) (some id) =
    catch (query (on_accounts (kyc_statement now status id)) >>= found_or_404) database_failure
