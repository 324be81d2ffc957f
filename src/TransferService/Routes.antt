-- ===== src/TransferService/Routes.antt =====
-- services/transfer-service/src/routes.ts. The body's ids are texts; `uuid_of` is zod's check of a
-- UUID with the number that the database reads.
use cn_banking_transaction_s.Base.{ℕ, String, Option, none, some, List, ◌==◌, str_eq, if◌then◌else◌}
use cn_banking_transaction_s.Effect.{
  Thrown, axios, pg, plain, Exec, pure, catch, ◌>>=◌, validation_error, not_found, account_frozen,
  insufficient_funds_code, database_error, transfer_failed, Response, success, failure,
}
use cn_banking_transaction_s.Types.{Transfer}
use cn_banking_transaction_s.Money.{positive_money}
use cn_banking_transaction_s.TransferService.{World, Config, Order, SagaFresh}
use cn_banking_transaction_s.TransferService.Saga.{execute, get_transfer_by_id}

pub record CreateTransferBody : Type 0 where
  pub from_account_id : Option String
  pub to_account_id : Option String
  pub amount : Option (List ℕ)

-- if (error.response?.status === ...)
abbrev pub transfer_status_error : ℕ → Response Transfer
transfer_status_error status =
    if status == 422
    then failure 422 insufficient_funds_code
    else if status == 423
    then failure 423 account_frozen
    else if status == 404
    then failure 404 not_found
    else failure 500 transfer_failed

-- The `catch` of POST /transfers.
unfoldable pub transfer_error : Thrown → Exec World (Response Transfer)
transfer_error (axios (some status)) = pure (transfer_status_error status)
transfer_error (axios none) = pure (failure 500 transfer_failed)
transfer_error (pg e) = pure (failure 500 transfer_failed)
transfer_error (plain m) = pure (failure 500 transfer_failed)

abbrev pub created : Transfer → Exec World (Response Transfer)
created t = pure (success 201 t)

module _ (uuid_of : String → Option ℕ) where
  -- The refinement compares the texts of the two ids.
  abbrev pub distinct_order :
      String → String → List ℕ → Option ℕ → Option ℕ → Option ℕ → Option Order
  distinct_order from_text to_text text (some from) (some to) (some cents) =
      if str_eq from_text to_text
      then none
      else some (record { from_account_id = from; to_account_id = to; amount = text })
  distinct_order from_text to_text text _ _ _ = none

  -- `CreateTransferSchema`
  abbrev pub order_of : Option String → Option String → Option (List ℕ) → Option Order
  order_of (some from) (some to) (some text) =
      distinct_order from to text (uuid_of from) (uuid_of to) (positive_money (some text))
  order_of _ _ _ = none

  unfoldable pub create_transfer_schema : CreateTransferBody → Option Order
  create_transfer_schema body = order_of body.from_account_id body.to_account_id body.amount

  unfoldable pub create_parsed : Config → SagaFresh → Option Order → Exec World (Response Transfer)
  unfolding transfer_error
  create_parsed config fresh none = pure (failure 400 validation_error)
  create_parsed config fresh (some order) =
      catch (execute config fresh order >>= created) transfer_error

  -- POST /transfers
  unfoldable pub create_transfer :
      Config → SagaFresh → CreateTransferBody → Exec World (Response Transfer)
  unfolding create_parsed create_transfer_schema
  create_transfer config fresh body = create_parsed config fresh (create_transfer_schema body)

abbrev pub found : Option Transfer → Exec World (Response Transfer)
found none = pure (failure 404 not_found)
found (some t) = pure (success 200 t)

-- GET /transfers/:id
unfoldable pub get_transfer : Option ℕ → Exec World (Response Transfer)
get_transfer none = pure (failure 400 validation_error)
get_transfer (some id) =
    catch (get_transfer_by_id id >>= found) (λ e. pure (failure 500 database_error))
