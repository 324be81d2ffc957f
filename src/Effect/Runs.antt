-- ===== src/Effect/Runs.antt =====
-- What a run of calls achieves where no reply is lost: a condition before it, one after it if it
-- returns and one if it throws, with one rule for each way to build a run.
use cn_banking_transaction_s.Base.{◌≡◌, true, [], ◌∷◌}
use cn_banking_transaction_s.Effect.{
  delivered, lost, reply_lost, Script, Thrown, Result, ok, err, Exec, pure, throw, call, request,
  catch, transaction, rollback, ping, finish, ◌>>=◌, ◌>>◌, keeps_replies,
}

-- The end of a run: `Q` of the value and the state, or `R` of the state behind a throw.
abbrev pub Ends {ℓ} :
    {S A : Type ℓ} → (A → S → Type ℓ) → (S → Type ℓ) → Result A × Script × S → Type ℓ
Ends Q R (ok a, f, s) = Q a s × (keeps_replies f ≡ true)
Ends Q R (err e, f, s) = R s × (keeps_replies f ≡ true)

-- The end of one statement.
abbrev pub Gives {ℓ} : {S A : Type ℓ} → (A → S → Type ℓ) → (S → Type ℓ) → Result A × S → Type ℓ
Gives Q R (ok a, s) = Q a s
Gives Q R (err e, s) = R s

pub record Runs {ℓ} {S A : Type ℓ} (P : S → Type ℓ) (m : Exec S A) (Q : A → S → Type ℓ)
    (R : S → Type ℓ) : Type ℓ where
  pub at : (f : Script) (s : S) → keeps_replies f ≡ true → P s → Ends Q R (m f s)

reply_ends {ℓ} :
    {S A : Type ℓ} (Q : A → S → Type ℓ) (R : S → Type ℓ) (f : Script) (r : Result A × S)
    → keeps_replies f ≡ true
    → Gives Q R r
    → Ends Q R (r.0, f, r.1)
reply_ends Q R f (ok a, s) k g = (g, k)
reply_ends Q R f (err e, s) k g = (g, k)

module _ {ℓ} {S A : Type ℓ} {P : S → Type ℓ} {Q : A → S → Type ℓ} {R : S → Type ℓ} where
  pub Runs-pure : (a : A) → ((s : S) → P s → Q a s) → Runs P (pure a) Q R
  Runs-pure a h = record { at = λ f s k p. (h s p, k) }

  pub Runs-throw : (e : Thrown) → ((s : S) → P s → R s) → Runs P (throw e) Q R
  Runs-throw e h = record { at = λ f s k p. (h s p, k) }

  pub Runs-call :
      (e : Thrown) (op : S → Result A × S)
      → ((s : S) → P s → Gives Q R (op s))
      → ((s : S) → P s → R s)
      → Runs P (call e op) Q R
  Runs-call e op h lose = record { at = go }
    where
      go : (f : Script) (s : S) → keeps_replies f ≡ true → P s → Ends Q R (call e op f s)
      go [] s k p = reply_ends Q R [] (op s) k (h s p)
      go (delivered ∷ f) s k p = reply_ends Q R f (op s) k (h s p)
      go (lost ∷ f) s k p = (lose s p, k)
      go (reply_lost ∷ f) s k p = cc

  pub Runs-request :
      (e : Thrown) (m : Exec S A) → Runs P m Q R → ((s : S) → P s → R s) → Runs P (request e m) Q R
  Runs-request e m h lose = record { at = go }
    where
      go : (f : Script) (s : S) → keeps_replies f ≡ true → P s → Ends Q R (request e m f s)
      go [] s k p = h.at [] s k p
      go (delivered ∷ f) s k p = h.at f s k p
      go (lost ∷ f) s k p = (lose s p, k)
      go (reply_lost ∷ f) s k p = cc

  -- A stronger condition before, a weaker one after.
  pub Runs-weaken :
      {P' : S → Type ℓ} {Q' : A → S → Type ℓ} {R' : S → Type ℓ} (m : Exec S A)
      → Runs P m Q R
      → ((s : S) → P' s → P s)
      → ((a : A) (s : S) → Q a s → Q' a s)
      → ((s : S) → R s → R' s)
      → Runs P' m Q' R'
  Runs-weaken {Q' = Q'} {R' = R'} m h before after thrown = record {
    at = λ f s k p. go (m f s) (h.at f s k (before s p));
  }
    where
      go : (r : Result A × Script × S) → Ends Q R r → Ends Q' R' r
      go (ok a, f, s) e = (after a s e.0, e.1)
      go (err x, f, s) e = (thrown s e.0, e.1)

after_bind {ℓ} :
    {S A B : Type ℓ} (Q : A → S → Type ℓ) (T : B → S → Type ℓ) (R : S → Type ℓ)
    (r : Result A × Script × S) (n : A → Exec S B)
    → ((a : A) → Runs (Q a) (n a) T R)
    → Ends Q R r
    → Ends T R (((λ f s. r) >>= n) r.1 r.2)
after_bind Q T R (ok a, f, s) n h e = (h a).at f s e.1 e.0
after_bind Q T R (err x, f, s) n h e = e

pub Runs-bind {ℓ} :
    {S A B : Type ℓ} {P : S → Type ℓ} {Q : A → S → Type ℓ} {T : B → S → Type ℓ} {R : S → Type ℓ}
    (m : Exec S A) (n : A → Exec S B)
    → Runs P m Q R
    → ((a : A) → Runs (Q a) (n a) T R)
    → Runs P (m >>= n) T R
Runs-bind {Q = Q} {T = T} {R = R} m n hm hn = record {
  at = λ f s k p. after_bind Q T R (m f s) n hn (hm.at f s k p);
}

module _ {ℓ} {S A : Type ℓ} where
  after_catch :
      (Q : A → S → Type ℓ) (R T : S → Type ℓ) (r : Result A × Script × S) (n : Thrown → Exec S A)
      → ((e : Thrown) → Runs R (n e) Q T)
      → Ends Q R r
      → Ends Q T (catch (λ f s. r) n r.1 r.2)
  after_catch Q R T (ok a, f, s) n h e = e
  after_catch Q R T (err x, f, s) n h e = (h x).at f s e.1 e.0

module _ {ℓ} {S A : Type ℓ} {P : S → Type ℓ} {Q : A → S → Type ℓ} {R T : S → Type ℓ} where
  pub Runs-catch :
      (m : Exec S A) (n : Thrown → Exec S A)
      → Runs P m Q R
      → ((e : Thrown) → Runs R (n e) Q T)
      → Runs P (catch m n) Q T
  Runs-catch m n hm hn = record { at = λ f s k p. after_catch Q R T (m f s) n hn (hm.at f s k p) }

module _ {ℓ} {S A : Type ℓ} (P : S → Type ℓ) (Q : A → S → Type ℓ) (T : S → Type ℓ) where
  Runs-rollback : (n : Exec S A) → Runs P n Q T → ((s : S) → P s → T s) → Runs P (rollback n) Q T
  Runs-rollback n h lose = Runs-bind ping (λ _. n) (Runs-call _ _ (λ s p. p) lose) (λ _. h)

  -- The statements ended in `r` and `s'`; the COMMIT is still to come.
  ends_finish :
      (R : S → Type ℓ) (r : Result A × Script × S) (n : Thrown → Exec S A)
      → ((e : Thrown) → Runs P (n e) Q T)
      → ((s : S) → P s → T s)
      → (s : S) → P s
      → Ends Q R r
      → Ends Q T (finish r.0 r.2 n r.1 s)
  ends_finish R (ok a, f, s') n h lose s p e =
      (Runs-catch {P = P} {Q = Q} {R = P} {T = T} _ _
          (Runs-call _ (λ s. (ok a, s')) (λ s p. e.0) (λ s p. p))
          (λ x. Runs-rollback (n x) (h x) lose)).at
        f s e.1 p
  ends_finish R (err x, f, s') n h lose s p e = (Runs-rollback (n x) (h x) lose).at f s e.1 p

-- A transaction that does not reach its COMMIT leaves the state as it was: the handler starts from
-- `P`, whatever the statements have done.
pub Runs-transaction {ℓ} :
    {S A : Type ℓ} {P : S → Type ℓ} {Q : A → S → Type ℓ} {R T : S → Type ℓ} (m : Exec S A)
    (n : Thrown → Exec S A)
    → Runs P m Q R
    → ((e : Thrown) → Runs P (n e) Q T)
    → ((s : S) → P s → R s)
    → ((s : S) → P s → T s)
    → Runs P (transaction m n) Q T
unfolding transaction
Runs-transaction {P = P} {Q = Q} {R = R} {T = T} m n hm hn begin_lost lose = record {
  at = λ f s k p.
      let began = Runs-bind {T = Q} ping (λ _. m) (Runs-call _ _ (λ s p. p) begin_lost) (λ _. hm) in
      ends_finish P Q T R ((ping >> m) f s) n hn lose s p (began.at f s k p);
}
