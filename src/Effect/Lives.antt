-- ===== src/Effect/Lives.antt =====
-- What a run of calls achieves where every call is delivered: it returns, with one rule for each way
-- to build a run.
use cn_banking_transaction_s.Base.{[], ◌∷◌}
use cn_banking_transaction_s.Effect.{
  Script, Thrown, Result, ok, err, Exec, pure, call, request, catch, transaction, finish, ◌>>=◌,
}

-- The run has returned a value, with `Q` of it and the state.
abbrev pub Returns : {S A : Type 0} → (A → S → Type 0) → Result A × Script × S → Type 0
Returns Q (ok a, [], s) = Q a s
Returns Q (ok a, fate ∷ f, s) = ⊥
Returns Q (err e, f, s) = ⊥

-- One statement has returned.
abbrev pub Replies : {S A : Type 0} → (A → S → Type 0) → Result A × S → Type 0
Replies Q (ok a, s) = Q a s
Replies Q (err e, s) = ⊥

pub record Lives {S A : Type 0} (P : S → Type 0) (m : Exec S A) (Q : A → S → Type 0) : Type 0 where
  pub at : (s : S) → P s → Returns Q (m [] s)

module _ {S A : Type 0} (Q : A → S → Type 0) where
  reply_returns : (r : Result A × S) → Replies Q r → Returns Q (r.0, [], r.1)
  reply_returns (ok a, s) h = h
  reply_returns (err e, s) h = absurd h

  caught :
      (r : Result A × Script × S) (h : Thrown → Exec S A)
      → Returns Q r
      → Returns Q (catch (λ f s. r) h r.1 r.2)
  caught (ok a, f, s) h q = q
  caught (err e, f, s) h q = absurd q

  finished :
      (r : Result A × Script × S) (h : Thrown → Exec S A) (s0 : S)
      → Returns Q r
      → Returns Q (finish r.0 r.2 h r.1 s0)
  finished (ok a, [], s) h s0 q = q
  finished (ok a, fate ∷ f, s) h s0 q = absurd q
  finished (err e, f, s) h s0 q = absurd q

module _ {S A : Type 0} {Q R : A → S → Type 0} where
  pub Returns-map :
      (r : Result A × Script × S) → ((a : A) (s : S) → Q a s → R a s) → Returns Q r → Returns R r
  Returns-map (ok a, [], s) h q = h a s q
  Returns-map (ok a, fate ∷ f, s) h q = absurd q
  Returns-map (err e, f, s) h q = absurd q

module _ {S A B : Type 0} (Q : A → S → Type 0) (R : B → S → Type 0) where
  bound :
      (r : Result A × Script × S) (k : A → Exec S B)
      → ((a : A) → Lives (Q a) (k a) R)
      → Returns Q r
      → Returns R (((λ f s. r) >>= k) r.1 r.2)
  bound (ok a, [], s) k l q = (l a).at s q
  bound (ok a, fate ∷ f, s) k l q = absurd q
  bound (err e, f, s) k l q = absurd q

module _ {S A : Type 0} {P : S → Type 0} {Q : A → S → Type 0} where
  pub Lives-pure : (a : A) → ((s : S) → P s → Q a s) → Lives P (pure a) Q
  Lives-pure a h = record { at = h }

  pub Lives-call :
      (e : Thrown) (op : S → Result A × S)
      → ((s : S) → P s → Replies Q (op s))
      → Lives P (call e op) Q
  Lives-call e op h = record { at = λ s p. reply_returns Q (op s) (h s p) }

  pub Lives-request : (e : Thrown) (m : Exec S A) → Lives P m Q → Lives P (request e m) Q
  Lives-request e m h = record { at = h.at }

  pub Lives-catch : (m : Exec S A) (h : Thrown → Exec S A) → Lives P m Q → Lives P (catch m h) Q
  Lives-catch m h l = record { at = λ s p. caught Q (m [] s) h (l.at s p) }

  pub Lives-transaction :
      (m : Exec S A) (h : Thrown → Exec S A) → Lives P m Q → Lives P (transaction m h) Q
  unfolding transaction
  Lives-transaction m h l = record { at = λ s p. finished Q (m [] s) h s (l.at s p) }

module _ {S A B : Type 0} {P : S → Type 0} {Q : A → S → Type 0} {R : B → S → Type 0} where
  pub Lives-bind :
      (m : Exec S A) (k : A → Exec S B)
      → Lives P m Q
      → ((a : A) → Lives (Q a) (k a) R)
      → Lives P (m >>= k) R
  Lives-bind m k l n = record { at = λ s p. bound Q R (m [] s) k n (l.at s p) }
