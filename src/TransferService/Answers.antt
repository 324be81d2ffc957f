-- ===== src/TransferService/Answers.antt =====
-- services/transfer-service/src/routes.ts: what an answer of POST /transfers says about the money.
use cn_banking_transaction_s.Base.{
  ℕ, ◌≡◌, ◌≢◌, refl, true, false, String, Option, none, some, ◌==◌, Bool-cases, inl, inr, arith,
}
use cn_banking_transaction_s.Effect.{
  Script, keeps_replies, Thrown, axios, pg, plain, Result, ok, err, catch, ◌>>=◌, Response, success,
  failure,
}
use cn_banking_transaction_s.Effect.Runs.{Ends}
use cn_banking_transaction_s.Types.{Transfer}
use cn_banking_transaction_s.TransferService.{World, Config, Order, SagaFresh}
use cn_banking_transaction_s.TransferService.Saga.{execute}
use cn_banking_transaction_s.TransferService.Routes.{
  CreateTransferBody, create_transfer_schema, create_parsed, create_transfer, transfer_error,
  created,
}
use cn_banking_transaction_s.TransferService.Accounting.{At, Accounted}
use cn_banking_transaction_s.TransferService.Accounting.Recovery.{execute-Accounted}

-- What POST /transfers has done for a body that `o` stands for.
abbrev pub TransferAnswered :
    Option Order → World → Result (Response Transfer) × Script × World → Type 0
TransferAnswered none w (ok (success c t), f, w') = ⊥
TransferAnswered none w (ok (failure c x), f, w') = (c ≡ 400) × (w' ≡ w)
TransferAnswered (some order) w (ok (success c t), f, w') =
    (c ≡ 201) × At order w.accounts_db true true false w'
TransferAnswered (some order) w (ok (failure c x), f, w') =
    (c ≢ 400) × Accounted order w.accounts_db w'
TransferAnswered o w (err e, f, w') = ⊥

error-Answered :
    (order : Order) (w : World) (e : Thrown) (f : Script) (w' : World)
    → Accounted order w.accounts_db w'
    → TransferAnswered (some order) w (transfer_error e f w')
unfolding transfer_error
error-Answered order w (axios (some status)) f w' h = elim (Bool-cases (status == 422)) [
  | inl a ↦ rw a ((λ e. ground arith), h)
  | inr a ↦ elim (Bool-cases (status == 423)) [
    | inl b ↦ rw (a, b) ((λ e. ground arith), h)
    | inr b ↦ elim (Bool-cases (status == 404)) [
      | inl c ↦ rw (a, b, c) ((λ e. ground arith), h)
      | inr c ↦ rw (a, b, c) ((λ e. ground arith), h)
    ]
  ]
]
error-Answered order w (axios none) f w' h = ((λ e. ground arith), h)
error-Answered order w (pg e) f w' h = ((λ e. ground arith), h)
error-Answered order w (plain m) f w' h = ((λ e. ground arith), h)

ended-Answered :
    (order : Order) (w : World) (r : Result Transfer × Script × World)
    → Ends (λ _. At order w.accounts_db true true false) (Accounted order w.accounts_db) r
    → TransferAnswered (some order) w (catch ((λ f s. r) >>= created) transfer_error r.1 w)
ended-Answered order w (ok t, f, w') h = (refl, h.0)
ended-Answered order w (err e, f, w') h = error-Answered order w e f w' h.0

-- Where no reply is lost, POST /transfers always answers. A body that the schema refuses is
-- answered with 400 and changes nothing. Otherwise 201 says that the amount has moved from the
-- source to the destination once, with nothing else moved, and behind every other answer, which is
-- none with 400, the flags of the saga say exactly which of the debit, the credit and the refund
-- have been made.
pub create_transfer-TransferAnswered :
    (uuid_of : String → Option ℕ) (config : Config) (fresh : SagaFresh) (body : CreateTransferBody)
    (f : Script) (w : World)
    → keeps_replies f ≡ true
    → TransferAnswered
        (create_transfer_schema uuid_of body)
        w
        (create_transfer uuid_of config fresh body f w)
unfolding create_transfer create_parsed
create_transfer-TransferAnswered uuid_of config fresh body f w k =
    parsed (create_transfer_schema uuid_of body)
  where
    parsed : (o : Option Order) → TransferAnswered o w (create_parsed uuid_of config fresh o f w)
    parsed none = (refl, refl)
    parsed (some order) =
        ended-Answered order w (execute config fresh order f w)
          (execute-Accounted config fresh order f w k)
