-- ===== src/Effect.antt =====
-- Calls of a database or of another service, which may fail, as explicit state passing. A call's
-- fate is read off a script: it is delivered, it is lost on the way, or it takes effect and the
-- reply is lost. An empty script delivers every call.
pub mod Keeps
pub mod Runs
pub mod Throws
pub mod Once
pub mod Lives
pub mod Answers
use cn_banking_transaction_s.Base.{ℕ, Bool, true, false, List, [], ◌∷◌, Option}

pub data Fate : Type 0 where
  delivered lost reply_lost : Fate

abbrev pub Script : Type 0
Script = List Fate

-- What the code looks at in a database error: `error.code === '23505'`, or any other.
pub data SqlState : Type 0 where
  unique_violation check_violation numeric_overflow connection_failure : SqlState

-- The messages that the code stores and sends. `reported` is `error.message` of what was thrown.
mutual
  pub data Thrown : Type 0 where
    axios : Option ℕ → Thrown
    pg : SqlState → Thrown
    plain : Message → Thrown

  pub data Message : Type 0 where
    insufficient_funds not_created not_persisted : Message
    reported : Thrown → Message
    both_failed : Message → Message → Message

pub data Result {ℓ} (A : Type ℓ) : Type ℓ where
  ok : A → Result A
  err : Thrown → Result A

abbrev pub Exec {ℓ} : Type ℓ → Type ℓ → Type ℓ
Exec S A = Script → S → Result A × Script × S

module _ {ℓ} {S A : Type ℓ} where
  abbrev pub pure : A → Exec S A
  pure a f s = (ok a, f, s)

  abbrev pub throw : Thrown → Exec S A
  throw e f s = (err e, f, s)

  -- A call with the error that its caller sees where no reply comes.
  abbrev pub call : Thrown → (S → Result A × S) → Exec S A
  call e op [] s = let (r, s') = op s in (r, [], s')
  call e op (delivered ∷ f) s = let (r, s') = op s in (r, f, s')
  call e op (lost ∷ f) s = (err e, f, s)
  call e op (reply_lost ∷ f) s = let (r, s') = op s in (err e, f, s')

  -- A call that is itself a run of calls, such as a request to another service.
  abbrev pub request : Thrown → Exec S A → Exec S A
  request e m [] s = m [] s
  request e m (delivered ∷ f) s = m f s
  request e m (lost ∷ f) s = (err e, f, s)
  request e m (reply_lost ∷ f) s = let (r, f', s') = m f s in (err e, f', s')

  -- `try { m } catch (error) { h(error) }`
  abbrev pub catch : Exec S A → (Thrown → Exec S A) → Exec S A
  catch m h f s = let (r, f', s') = m f s in elim r [ ok a ↦ (ok a, f', s') | err e ↦ h e f' s' ]

module _ {ℓ} {S A B : Type ℓ} where
  infixl 5 ◌>>=◌ ◌>>◌
  abbrev pub ◌>>=◌ : Exec S A → (A → Exec S B) → Exec S B
  ◌>>=◌ m k f s = let (r, f', s') = m f s in elim r [ ok a ↦ k a f' s' | err e ↦ (err e, f', s') ]

  abbrev pub ◌>>◌ : Exec S A → Exec S B → Exec S B
  m >> k = m >>= λ _. k

-- A statement or query sent to PostgreSQL or MongoDB.
abbrev pub query {ℓ} : {S A : Type ℓ} → (S → Result A × S) → Exec S A
query op = call (pg connection_failure) op

-- A statement that changes no row: BEGIN, ROLLBACK, and `pool.connect()`.
abbrev pub ping {ℓ} : {S : Type ℓ} → Exec S (Unit {ℓ})
ping = query (λ s. (ok tt, s))

-- BEGIN; m; COMMIT, with a ROLLBACK before the handler where one of them throws. What `m` writes is
-- seen after the COMMIT only. A ROLLBACK that throws takes the place of the handler.
module _ {ℓ} {S A : Type ℓ} where
  abbrev pub rollback : Exec S A → Exec S A
  rollback h = ping >> h

  -- The statements ended in `r` and in the state `s'`.
  abbrev pub finish : Result A → S → (Thrown → Exec S A) → Exec S A
  finish (ok a) s' h = catch (query (λ s. (ok a, s'))) (λ e. rollback (h e))
  finish (err e) s' h = rollback (h e)

  unfoldable pub transaction : Exec S A → (Thrown → Exec S A) → Exec S A
  transaction m h f s = let (r, f', s') = (ping >> m) f s in finish r s' h f' s

-- No reply is lost: what fails has not happened.
abbrev pub keeps_replies : Script → Bool
keeps_replies [] = true
keeps_replies (reply_lost ∷ f) = false
keeps_replies (fate ∷ f) = keeps_replies f

-- The answer of an HTTP handler: a status, with the data or the error's code.
pub data Code : Type 0 where
  validation_error forbidden not_found conflict account_frozen kyc_not_verified : Code
  insufficient_funds_code database_error transfer_failed : Code

pub data Response {ℓ} (A : Type ℓ) : Type ℓ where
  success : ℕ → A → Response A
  failure : ℕ → Code → Response A
