-- ===== src/Money.antt =====
-- The amounts of shared/types/src/index.ts: text that `moneyRegex` accepts, read in cents.
pub mod Regex
use cn_banking_transaction_s.Base.{
  ℕ, ◌+◌, ◌-◌, ◌*◌, Bool, true, false, ◌&&◌, Option, none, some, List, [], ◌∷◌, leb, ltb, ◌==◌,
  if◌then◌else◌,
}

-- `\d`
abbrev pub is_digit : ℕ → Bool
is_digit c = leb b'0' c && leb c b'9'

-- `\d{1,2}$`, behind the point
unfoldable pub fraction : List ℕ → Bool
fraction (a ∷ []) = is_digit a
fraction (a ∷ b ∷ []) = is_digit a && is_digit b
fraction _ = false

-- `\d*(\.\d{1,2})?$`, behind the first digit
unfoldable pub after_digit : List ℕ → Bool
unfolding fraction
after_digit [] = true
after_digit (c ∷ s) =
    let rest = after_digit s in if is_digit c then rest else c == b'.' && fraction s

-- `/^\d+(\.\d{1,2})?$/`
unfoldable pub money_regex : List ℕ → Bool
unfolding after_digit
money_regex [] = false
money_regex (c ∷ s) = is_digit c && after_digit s

-- The number of cents behind the point: one digit counts tens.
abbrev pub fraction_cents : List ℕ → ℕ
fraction_cents (a ∷ []) = 10 * (a - b'0')
fraction_cents (a ∷ b ∷ s) = 10 * (a - b'0') + (b - b'0')
fraction_cents [] = 0

abbrev pub cents_from : ℕ → List ℕ → ℕ
cents_from acc [] = 100 * acc
cents_from acc (c ∷ s) =
    let rest = cents_from (10 * acc + (c - b'0')) s in
    if c == b'.' then 100 * acc + fraction_cents s else rest

-- What the text stands for, in cents: the value that the column NUMERIC(18, 2) holds.
unfoldable pub cents : List ℕ → ℕ
cents s = cents_from 0 s

-- `nonNegativeMoneySchema` on a value that may be missing or no text.
unfoldable pub non_negative_money : Option (List ℕ) → Option ℕ
unfolding money_regex cents
non_negative_money none = none
non_negative_money (some s) = if money_regex s then some (cents s) else none

-- `positiveMoneySchema`: `Number(value) > 0` on a text with at most two decimals.
unfoldable pub positive_money : Option (List ℕ) → Option ℕ
unfolding money_regex cents
positive_money none = none
positive_money (some s) = if money_regex s && ltb 0 (cents s) then some (cents s) else none
