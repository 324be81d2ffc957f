-- ===== src/Money/Regex.antt =====
-- The amount schemas of shared/types/src/index.ts against a grammar of amounts.
use cn_banking_transaction_s.Base.{
  ℕ, ◌≡◌, refl, ◌↔◌, inl, inr, true, List, [], ◌∷◌, arith, Bool-cases,
}
use cn_banking_transaction_s.Money.{is_digit, fraction, after_digit, money_regex}

-- The text behind the first digit: digits to the end, or to a point with one or two digits.
pub data Tail : List ℕ → Type 0 where
  stop : Tail []
  digit : {c : ℕ} {s : List ℕ} → is_digit c ≡ true → Tail s → Tail (c ∷ s)
  tenths : {a : ℕ} → is_digit a ≡ true → Tail (b'.' ∷ a ∷ [])
  hundredths : {a b : ℕ} → is_digit a ≡ true → is_digit b ≡ true → Tail (b'.' ∷ a ∷ b ∷ [])

-- The amounts: at least one digit before the point.
pub data Amount : List ℕ → Type 0 where
  amount : {c : ℕ} {s : List ℕ} → is_digit c ≡ true → Tail s → Amount (c ∷ s)

Tail-complete : {s : List ℕ} → Tail s → after_digit s ≡ true
unfolding after_digit
Tail-complete stop = refl
Tail-complete (digit h t) = ground (arith, Tail-complete t)
Tail-complete (tenths h) = ground arith
Tail-complete (hundredths h k) = ground arith

fraction-Tail : (s : List ℕ) → fraction s ≡ true → Tail (b'.' ∷ s)
unfolding fraction
fraction-Tail [] h = cc
fraction-Tail (a ∷ []) h = tenths h
fraction-Tail (a ∷ b ∷ []) h = hundredths (ground arith) (ground arith)
fraction-Tail (a ∷ b ∷ c ∷ s) h = cc

point-Tail : (c : ℕ) (s : List ℕ) → c ≡ b'.' → fraction s ≡ true → Tail (c ∷ s)
point-Tail c s e h = rw e (fraction-Tail s h)

after_digit-Tail : (s : List ℕ) → after_digit s ≡ true → Tail s
unfolding after_digit
after_digit-Tail [] h = stop
after_digit-Tail (c ∷ s) h = elim (Bool-cases (is_digit c)) [
  | inl d ↦ digit d (after_digit-Tail s (ground arith))
  | inr n ↦ point-Tail c s (ground arith) (ground arith)
]

-- `moneyRegex` accepts exactly the amounts of the grammar: one digit or more, then optionally a
-- point and one or two digits.
pub money_regex-iff-Amount : (s : List ℕ) → (money_regex s ≡ true) ↔ Amount s
unfolding money_regex
money_regex-iff-Amount [] = ((λ h. cc), (λ a. elim a [ ]))
money_regex-iff-Amount (c ∷ s) =
    ((λ h. amount (ground arith) (after_digit-Tail s (ground arith))), back)
  where
    back : Amount (c ∷ s) → money_regex (c ∷ s) ≡ true
    back (amount h t) = ground (arith, Tail-complete t)
