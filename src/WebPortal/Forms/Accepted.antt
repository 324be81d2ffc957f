-- ===== src/WebPortal/Forms/Accepted.antt =====
-- services/web-portal/src/lib/forms/schemas.ts against services/transfer-service/src/routes.ts: the
-- transfer form and the schema of POST /transfers.
use cn_banking_transaction_s.Base.{
  ℕ, ◌≡◌, ◌≢◌, refl, ap, ◌∙◌, Bool, true, false, not, ◌&&◌, String, Option, none, some, List, [],
  ◌∷◌, str_eq, eq_iff, subst, Bool-cases, inl, inr, arith, if◌then◌else◌,
}
use cn_banking_transaction_s.Events.{codes}
use cn_banking_transaction_s.Money.{cents, positive_money}
use cn_banking_transaction_s.TransferService.{Order}
use cn_banking_transaction_s.TransferService.Routes.{CreateTransferBody, create_transfer_schema}
use cn_banking_transaction_s.WebPortal.Client.{to_lower_case}
use cn_banking_transaction_s.WebPortal.Routing.Guards.{same_text}
use cn_banking_transaction_s.WebPortal.Forms.{
  TransferFields, uuid_pattern, money_pattern, is_positive_amount, check_transfer, trimmed,
  transfer_form_schema,
}

same_text_refl : (s : List ℕ) → same_text s s ≡ true
same_text_refl [] = refl
same_text_refl (c ∷ s) = ground (arith, same_text_refl s)

same_text-apart : (s t : List ℕ) → same_text s t ≡ false → s ≢ t
same_text-apart s t d e = let r : same_text t t ≡ true = same_text_refl t in cc

abbrev lower : String → List ℕ
lower text = to_lower_case (codes text)

taken :
    (b : Bool) (x y : TransferFields) → (if b then some x else none) ≡ some y → (b ≡ true) × (x ≡ y)
taken true x y h = (refl, cc)
taken false x y h = cc

all_four :
    (a b c d : Bool)
    → a && b && c && not d ≡ true
    → (a ≡ true) × (b ≡ true) × (c ≡ true) × (d ≡ false)
all_four true true true false h = (refl, refl, refl, refl)
all_four true true true true h = cc
all_four true true false d h = cc
all_four true false c d h = cc
all_four false b c d h = cc

-- The body that `createTransfer` of the portal sends.
abbrev pub body_of : TransferFields → CreateTransferBody
body_of fields = record {
  from_account_id = some fields.from_account_id;
  to_account_id = some fields.to_account_id;
  amount = some (codes fields.amount);
}

-- The transfer service makes an order of the body, between two accounts, over a positive amount.
abbrev pub Accepted : (String → Option ℕ) → CreateTransferBody → Type 0
Accepted uuid_of body =
    (order : Order) × (n : ℕ) × (create_transfer_schema uuid_of body ≡ some order)
    × (order.from_account_id ≢ order.to_account_id)
    × (positive_money (some order.amount) ≡ some n)

module _ (uuid_of : String → Option ℕ)
    (reads : (text : String)
      → uuid_pattern (codes text) ≡ true
      → (id : ℕ) × (uuid_of text ≡ some id))
    (separates : (s t : String) (id : ℕ)
      → uuid_of s ≡ some id
      → uuid_of t ≡ some id
      → to_lower_case (codes s) ≡ to_lower_case (codes t)) where
  checked :
      (fields : TransferFields)
      → is_positive_amount fields.amount ≡ true
      → uuid_pattern (codes fields.from_account_id) ≡ true
      → uuid_pattern (codes fields.to_account_id) ≡ true
      → same_text
          (to_lower_case (codes fields.from_account_id))
          (to_lower_case (codes fields.to_account_id))
        ≡ false
      → Accepted uuid_of (body_of fields)
  unfolding is_positive_amount money_pattern create_transfer_schema positive_money
  checked fields money from to different =
      let (i, read_i) = reads fields.from_account_id from in
      let (j, read_j) = reads fields.to_account_id to in
      let apart : i ≢ j = λ e.
        same_text-apart (lower fields.from_account_id) (lower fields.to_account_id) different (
          separates fields.from_account_id fields.to_account_id j (read_i ∙ ap (λ k. some k) e)
            read_j) in
      let texts : str_eq fields.from_account_id fields.to_account_id ≡ false =
        elim (Bool-cases (str_eq fields.from_account_id fields.to_account_id)) [
          | inl same ↦ absurd (
              same_text-apart (lower fields.from_account_id) (lower fields.to_account_id) different
                (ap lower ((eq_iff fields.from_account_id fields.to_account_id).0 same)))
          | inr other ↦ other
        ] in
      (
        record { from_account_id = i; to_account_id = j; amount = codes fields.amount },
        cents (codes fields.amount),
        rw (read_i, read_j, money, texts) refl,
        apart,
        rw money refl,
      )

  abbrev passes : TransferFields → Bool
  unfolding is_positive_amount
  passes fields =
      is_positive_amount fields.amount
      && uuid_pattern (codes fields.from_account_id)
      && uuid_pattern (codes fields.to_account_id)
      && not (same_text (lower fields.from_account_id) (lower fields.to_account_id))

  -- What the transfer form accepts, the transfer service accepts: if the form's schema takes the
  -- fields, then the schema of POST /transfers takes the body that is sent for them, as an order
  -- between two accounts that are different, over a positive amount. zod's reading of a UUID is
  -- taken to read every text of the portal's pattern, and to read one id only from texts that are
  -- the same up to the case of their letters.
  pub transfer_form_schema-Accepted :
      (fields input : TransferFields)
      → transfer_form_schema fields ≡ some input
      → Accepted uuid_of (body_of input)
  unfolding transfer_form_schema check_transfer
  transfer_form_schema-Accepted fields input h =
      let (passed, same) = taken (passes (trimmed fields)) (trimmed fields) input h in
      let (money, from, to, different) =
        all_four _ _ _ _ (subst (λ x. passes x ≡ true) same passed) in
      checked input money from to different
