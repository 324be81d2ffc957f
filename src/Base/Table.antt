-- ===== src/Base/Table.antt =====
-- A table with a primary key: the rows in the order of insertion.
pub mod Keys
use cn_banking_transaction_s.Base.Tests.{◌==◌, if◌then◌else◌}
use Prim.Native.Nat.{ℕ, ◌+◌}
use mathlib.Core.Path.{◌≡◌, refl}
use mathlib.Core.Logic.{◌≢◌}
use mathlib.Core.List.{List, [], ◌∷◌, ◌++◌}
use mathlib.Core.Option.{Option, none, some}
use native.Mathlib.Omega.{arith}

abbrev pub Table {ℓ} : Type ℓ → Type ℓ
Table V = List (ℕ × V)

module _ {ℓ} {V : Type ℓ} where
  -- SELECT ... WHERE id = k
  abbrev pub lookup : ℕ → Table V → Option V
  lookup k [] = none
  lookup k ((j, v) ∷ t) = if k == j then some v else lookup k t

  -- UPDATE ... WHERE id = k: nothing changes where no row has the key.
  abbrev pub set : ℕ → V → Table V → Table V
  set k v [] = []
  set k v ((j, w) ∷ t) = if k == j then (j, v) ∷ t else (j, w) ∷ set k v t

  -- INSERT, at the end of the table.
  abbrev pub insert : ℕ → V → Table V → Table V
  insert k v t = t ++ (k, v) ∷ []

  -- The sum of a column.
  abbrev pub sum_by : (V → ℕ) → Table V → ℕ
  sum_by f [] = 0
  sum_by f ((_, v) ∷ t) = f v + sum_by f t

module _ {ℓ} {V : Type ℓ} where
  pub lookup-set_self :
      (k : ℕ) (v w : V) (t : Table V) → lookup k t ≡ some w → lookup k (set k v t) ≡ some v
  lookup-set_self k v w [] h = cc
  lookup-set_self k v w ((j, x) ∷ t) h = ground (arith, lookup-set_self k v w t)

  pub lookup-set_ne : (i k : ℕ) (v : V) (t : Table V) → i ≢ k → lookup i (set k v t) ≡ lookup i t
  lookup-set_ne i k v [] h = refl
  lookup-set_ne i k v ((j, x) ∷ t) h = ground (arith, lookup-set_ne i k v t h)

  pub lookup-insert_self :
      (k : ℕ) (v : V) (t : Table V) → lookup k t ≡ none → lookup k (insert k v t) ≡ some v
  lookup-insert_self k v [] h = ground arith
  lookup-insert_self k v ((j, x) ∷ t) h = ground (arith, lookup-insert_self k v t)

  pub lookup-insert_old :
      (i k : ℕ) (v w : V) (t : Table V) → lookup i t ≡ some w → lookup i (insert k v t) ≡ some w
  lookup-insert_old i k v w [] h = cc
  lookup-insert_old i k v w ((j, x) ∷ t) h = ground (arith, lookup-insert_old i k v w t)

  pub lookup-insert_ne :
      (i k : ℕ) (v : V) (t : Table V) → i ≢ k → lookup i (insert k v t) ≡ lookup i t
  lookup-insert_ne i k v [] h = ground arith
  lookup-insert_ne i k v ((j, x) ∷ t) h = ground (arith, lookup-insert_ne i k v t h)

  pub sum_by-set :
      (f : V → ℕ) (k : ℕ) (v w : V) (t : Table V)
      → lookup k t ≡ some w
      → sum_by f (set k v t) + f w ≡ sum_by f t + f v
  sum_by-set f k v w [] h = cc
  sum_by-set f k v w ((j, x) ∷ t) h = ground (arith, sum_by-set f k v w t)

  pub sum_by-insert :
      (f : V → ℕ) (k : ℕ) (v : V) (t : Table V) → sum_by f (insert k v t) ≡ sum_by f t + f v
  sum_by-insert f k v [] = omega arith
  sum_by-insert f k v ((j, x) ∷ t) = omega (arith, sum_by-insert f k v t)
