-- ===== src/LedgerService/Queries/Complete.antt =====
-- services/ledger-service/src/index.ts, GET /v1/ledger/:accountId: what the pages leave out.
use cn_banking_transaction_s.Base.{◌≡◌, ◌⊎◌, List, [], ◌∷◌}

-- The element is one of the list.
abbrev pub Among : {A : Type 0} → A → List A → Type 0
Among a [] = ⊥
Among a (x ∷ xs) = (a ≡ x) ⊎ Among a xs
