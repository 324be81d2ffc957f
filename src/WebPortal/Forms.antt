-- ===== src/WebPortal/Forms.antt =====
-- services/web-portal/src/lib/forms/schemas.ts: the forms. zod's check of an e-mail address is a
-- parameter.

pub mod Accepted
use cn_banking_transaction_s.Base.{
  ℕ, zero, suc, Bool, true, false, not, ◌&&◌, ◌||◌, String, Option, none, some, List, [], ◌∷◌, map,
  leb, ltb, ◌==◌, if◌then◌else◌,
}
use cn_banking_transaction_s.Events.{codes}
use cn_banking_transaction_s.Money.{money_regex, cents}
use cn_banking_transaction_s.WebPortal.Client.{to_lower_case}
use cn_banking_transaction_s.WebPortal.Routing.Guards.{same_text}
use Prim.Native.Char.{code}

-- The white space that `trim` takes away.
unfoldable pub is_space : ℕ → Bool
is_space c =
    (leb 9 c && leb c 13)
    || c == 32
    || c == 160
    || c == 5_760
    || (leb 8_192 c && leb c 8_202)
    || c == 8_232
    || c == 8_233
    || c == 8_239
    || c == 8_287
    || c == 12_288
    || c == 65_279

unfoldable pub trim_start : String → String
unfolding is_space
trim_start String.[] = String.[]
trim_start (String.◌∷◌ c s) =
    let rest = trim_start s in if is_space (code c) then rest else String.◌∷◌ c s

-- Behind a text: nothing, if that is white space only.
unfoldable pub keep_end : ℕ → String → String → String
unfolding is_space
keep_end c whole String.[] = if is_space c then String.[] else whole
keep_end c whole (String.◌∷◌ d s) = whole

unfoldable pub trim_end : String → String
unfolding keep_end
trim_end String.[] = String.[]
trim_end (String.◌∷◌ c s) = let rest = trim_end s in keep_end (code c) (String.◌∷◌ c rest) rest

-- value.trim()
unfoldable pub trim : String → String
unfolding trim_start trim_end
trim text = trim_end (trim_start text)

-- `moneyPattern`
unfoldable pub money_pattern : List ℕ → Bool
unfolding money_regex
money_pattern text = money_regex text

abbrev pub is_hex : ℕ → Bool
is_hex c = (leb b'0' c && leb c b'9') || (leb b'a' c && leb c b'f') || (leb b'A' c && leb c b'F')

-- A character of the class, and what is behind it.
abbrev pub expect : (ℕ → Bool) → Option (List ℕ) → Option (List ℕ)
expect test none = none
expect test (some []) = none
expect test (some (c ∷ s)) = if test c then some s else none

abbrev pub expect_hex : ℕ → Option (List ℕ) → Option (List ℕ)
expect_hex zero text = text
expect_hex (suc n) text = expect_hex n (expect is_hex text)

abbrev pub is_dash : ℕ → Bool
is_dash c = c == b'-'

abbrev pub is_version : ℕ → Bool
is_version c = leb b'1' c && leb c b'5'

abbrev pub is_variant : ℕ → Bool
is_variant c = c == b'8' || c == b'9' || c == b'a' || c == b'b' || c == b'A' || c == b'B'

abbrev pub at_end : Option (List ℕ) → Bool
at_end (some []) = true
at_end _ = false

-- `uuidPattern`
unfoldable pub uuid_pattern : List ℕ → Bool
uuid_pattern text =
    let first = expect is_dash (expect_hex 8 (some text)) in
    let second = expect is_dash (expect_hex 4 first) in
    let third = expect is_dash (expect_hex 3 (expect is_version second)) in
    let fourth = expect is_dash (expect_hex 3 (expect is_variant third)) in
    at_end (expect_hex 12 fourth)

pub record TransferFields : Type 0 where
  pub amount : String
  pub from_account_id : String
  pub to_account_id : String

-- `accountIdSchema`, `transferIdSchema`, `ledgerIdSchema`
unfoldable pub id_schema : String → Option String
unfolding trim uuid_pattern
id_schema text = let id = trim text in if uuid_pattern (codes id) then some id else none

-- The fields, trimmed.
unfoldable pub trimmed : TransferFields → TransferFields
unfolding trim
trimmed fields = record {
  amount = trim fields.amount;
  from_account_id = trim fields.from_account_id;
  to_account_id = trim fields.to_account_id;
}

-- moneyPattern.test(value) && Number(value) > 0
unfoldable pub is_positive_amount : String → Bool
unfolding money_pattern cents
is_positive_amount text = money_pattern (codes text) && ltb 0 (cents (codes text))

-- The checks of the fields, and the refinement of the object behind them.
unfoldable pub check_transfer : TransferFields → Option TransferFields
unfolding is_positive_amount uuid_pattern
check_transfer fields =
    if is_positive_amount fields.amount
      && uuid_pattern (codes fields.from_account_id)
      && uuid_pattern (codes fields.to_account_id)
      && not (
          same_text (to_lower_case (codes fields.from_account_id))
            (to_lower_case (codes fields.to_account_id)))
    then some fields
    else none

-- `transferFormSchema`
unfoldable pub transfer_form_schema : TransferFields → Option TransferFields
unfolding check_transfer trimmed
transfer_form_schema fields = check_transfer (trimmed fields)
