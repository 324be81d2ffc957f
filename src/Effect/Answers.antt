-- ===== src/Effect/Answers.antt =====
-- What the value of a run says if it returns one, whatever calls fail.
use cn_banking_transaction_s.Base.{[], ◌∷◌}
use cn_banking_transaction_s.Effect.{
  delivered, lost, reply_lost, Script, Thrown, Result, ok, err, Exec, pure, call, request, catch,
  ◌>>=◌,
}

abbrev pub IfOk : {S A : Type 0} → (A → Type 0) → Result A × Script × S → Type 0
IfOk Q (ok a, f, s) = Q a
IfOk Q (err e, f, s) = Unit

abbrev pub ReplyOk : {S A : Type 0} → (A → Type 0) → Result A × S → Type 0
ReplyOk Q (ok a, s) = Q a
ReplyOk Q (err e, s) = Unit

pub record Answers {S A : Type 0} (P : S → Type 0) (m : Exec S A) (Q : A → Type 0) : Type 0 where
  pub at : (f : Script) (s : S) → P s → IfOk Q (m f s)

abbrev pub Any : {S : Type 0} → S → Type 0
Any s = Unit

module _ {S A : Type 0} (Q : A → Type 0) where
  reply_if_ok : (r : Result A × S) (f : Script) → ReplyOk Q r → IfOk Q (r.0, f, r.1)
  reply_if_ok (ok a, s) f h = h
  reply_if_ok (err e, s) f h = tt

  caught_if_ok :
      (r : Result A × Script × S) (h : Thrown → Exec S A)
      → IfOk Q r
      → ((e : Thrown) → Answers Any (h e) Q)
      → IfOk Q (catch (λ f s. r) h r.1 r.2)
  caught_if_ok (ok a, f, s) h q n = q
  caught_if_ok (err e, f, s) h q n = (n e).at f s tt

module _ {S A B : Type 0} (Q : A → Type 0) (R : B → Type 0) where
  bound_if_ok :
      (r : Result A × Script × S) (k : A → Exec S B)
      → IfOk Q r
      → ((a : A) → Q a → Answers Any (k a) R)
      → IfOk R (((λ f s. r) >>= k) r.1 r.2)
  bound_if_ok (ok a, f, s) k q n = (n a q).at f s tt
  bound_if_ok (err e, f, s) k q n = tt

module _ {S A : Type 0} {P : S → Type 0} {Q : A → Type 0} where
  pub Answers-pure : (a : A) → Q a → Answers P (pure a) Q
  Answers-pure a q = record { at = λ f s p. q }

  pub Answers-call :
      (e : Thrown) (op : S → Result A × S)
      → ((s : S) → P s → ReplyOk Q (op s))
      → Answers P (call e op) Q
  Answers-call e op h = record { at = go }
    where
      go : (f : Script) (s : S) → P s → IfOk Q (call e op f s)
      go [] s p = reply_if_ok Q (op s) [] (h s p)
      go (delivered ∷ f) s p = reply_if_ok Q (op s) f (h s p)
      go (lost ∷ f) s p = tt
      go (reply_lost ∷ f) s p = tt

  pub Answers-request : (e : Thrown) (m : Exec S A) → Answers P m Q → Answers P (request e m) Q
  Answers-request e m h = record { at = go }
    where
      go : (f : Script) (s : S) → P s → IfOk Q (request e m f s)
      go [] s p = h.at [] s p
      go (delivered ∷ f) s p = h.at f s p
      go (lost ∷ f) s p = tt
      go (reply_lost ∷ f) s p = tt

  pub Answers-catch :
      (m : Exec S A) (h : Thrown → Exec S A)
      → Answers P m Q
      → ((e : Thrown) → Answers Any (h e) Q)
      → Answers P (catch m h) Q
  Answers-catch m h a n = record { at = λ f s p. caught_if_ok Q (m f s) h (a.at f s p) n }

module _ {S A B : Type 0} {P : S → Type 0} {Q : A → Type 0} {R : B → Type 0} where
  pub Answers-bind :
      (m : Exec S A) (k : A → Exec S B)
      → Answers P m Q
      → ((a : A) → Q a → Answers Any (k a) R)
      → Answers P (m >>= k) R
  Answers-bind m k a n = record { at = λ f s p. bound_if_ok Q R (m f s) k (a.at f s p) n }
