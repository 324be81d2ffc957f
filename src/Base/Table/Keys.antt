-- ===== src/Base/Table/Keys.antt =====
-- Tables whose key is primary: no two rows have one key.
use cn_banking_transaction_s.Base.Tests.{◌==◌, Bool-cases}
use cn_banking_transaction_s.Base.Lists.{All}
use cn_banking_transaction_s.Base.Table.{Table, lookup, set, insert}
use Prim.Native.Nat.{ℕ}
use mathlib.Core.Path.{◌≡◌, refl}
use mathlib.Core.Logic.{inl, inr, ◌≢◌}
use mathlib.Core.List.{[], ◌∷◌}
use mathlib.Core.Option.{none, some}
use native.Mathlib.Omega.{arith}

module _ {ℓ} {V : Type ℓ} where
  abbrev pub UniqueKeys : Table V → Type ℓ
  UniqueKeys [] = Unit
  UniqueKeys ((j, v) ∷ t) = (lookup j t ≡ none) × UniqueKeys t

module _ {ℓ} {V : Type ℓ} where
  pub lookup-set_missing :
      (i k : ℕ) (v : V) (t : Table V) → lookup i t ≡ none → lookup i (set k v t) ≡ none
  lookup-set_missing i k v [] h = refl
  lookup-set_missing i k v ((j, x) ∷ t) h = ground (arith, lookup-set_missing i k v t)

  pub lookup-insert_missing :
      (i k : ℕ) (v : V) (t : Table V) → lookup i t ≡ none → i ≢ k → lookup i (insert k v t) ≡ none
  lookup-insert_missing i k v [] h n = ground arith
  lookup-insert_missing i k v ((j, x) ∷ t) h n = ground (arith, lookup-insert_missing i k v t)

  pub UniqueKeys-set : (k : ℕ) (v : V) (t : Table V) → UniqueKeys t → UniqueKeys (set k v t)
  UniqueKeys-set k v [] h = tt
  UniqueKeys-set k v ((j, x) ∷ t) h = elim (Bool-cases (k == j)) [
    | inl self ↦ rw self h
    | inr other ↦ rw other (lookup-set_missing j k v t h.0, UniqueKeys-set k v t h.1)
  ]

  pub UniqueKeys-insert :
      (k : ℕ) (v : V) (t : Table V) → lookup k t ≡ none → UniqueKeys t → UniqueKeys (insert k v t)
  UniqueKeys-insert k v [] n h = (refl, tt)
  UniqueKeys-insert k v ((j, x) ∷ t) n h = (
    lookup-insert_missing j k v t h.0 (λ e. ground arith),
    UniqueKeys-insert k v t (ground arith) h.1,
  )

  -- Every row of the second table is the one that the first has under its key.
  abbrev pub Found : Table V → Table V → Type ℓ
  Found t rows = All (λ r. lookup r.0 t ≡ some r.1) rows

  Found-cons :
      (j : ℕ) (x : V) (t rows : Table V)
      → lookup j t ≡ none
      → Found t rows
      → Found ((j, x) ∷ t) rows
  Found-cons j x t [] n h = tt
  Found-cons j x t ((i, y) ∷ rows) n h = elim (Bool-cases (i == j)) [
    | inl self ↦ let e : i ≡ j = ground arith in let e' : lookup j t ≡ some y = rw (e) at h.0 in cc
    | inr other ↦ (rw other h.0, Found-cons j x t rows n h.1)
  ]

  pub UniqueKeys-Found : (t : Table V) → UniqueKeys t → Found t t
  UniqueKeys-Found [] h = tt
  UniqueKeys-Found ((j, x) ∷ t) h = (ground arith, Found-cons j x t t h.0 (UniqueKeys-Found t h.1))
