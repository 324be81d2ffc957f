-- ===== src/Effect/Keeps.antt =====
-- Invariants of runs of calls, whatever calls fail: one rule for each way to build a run.
use cn_banking_transaction_s.Base.{[], ◌∷◌}
use cn_banking_transaction_s.Effect.{
  delivered, lost, reply_lost, Script, Thrown, Result, ok, err, Exec, pure, throw, call, request,
  catch, transaction, rollback, ping, finish, ◌>>=◌, ◌>>◌,
}

-- `m` keeps `P` of the state, whether it returns or throws.
pub record Keeps {ℓ κ} {S A : Type ℓ} (P : S → Type κ) (m : Exec S A) : Type (ℓ ⊔ κ) where
  pub at : (f : Script) (s : S) → P s → P (m f s).2

module _ {ℓ κ} {S A : Type ℓ} {P : S → Type κ} where
  pub Keeps-pure : (a : A) → Keeps P (pure a)
  Keeps-pure a = record { at = λ f s h. h }

  pub Keeps-throw : (e : Thrown) → Keeps P (throw {A = A} e)
  Keeps-throw e = record { at = λ f s h. h }

  pub call_keeps :
      (e : Thrown) (op : S → Result A × S)
      → ((s : S) → P s → P (op s).1)
      → (f : Script) (s : S) → P s
      → P (call e op f s).2
  call_keeps e op keep [] s h = keep s h
  call_keeps e op keep (delivered ∷ f) s h = keep s h
  call_keeps e op keep (lost ∷ f) s h = h
  call_keeps e op keep (reply_lost ∷ f) s h = keep s h

  pub Keeps-call :
      (e : Thrown) (op : S → Result A × S) → ((s : S) → P s → P (op s).1) → Keeps P (call e op)
  Keeps-call e op keep = record { at = call_keeps e op keep }

  request_keeps :
      (e : Thrown) (m : Exec S A) → Keeps P m → (f : Script) (s : S) → P s → P (request e m f s).2
  request_keeps e m k [] s h = k.at [] s h
  request_keeps e m k (delivered ∷ f) s h = k.at f s h
  request_keeps e m k (lost ∷ f) s h = h
  request_keeps e m k (reply_lost ∷ f) s h = k.at f s h

  pub Keeps-request : (e : Thrown) (m : Exec S A) → Keeps P m → Keeps P (request e m)
  Keeps-request e m k = record { at = request_keeps e m k }

module _ {ℓ κ} {S A B : Type ℓ} {P : S → Type κ} where
  bind_keeps :
      (r : Result A) (n : A → Exec S B)
      → ((a : A) → Keeps P (n a))
      → (f : Script) (s : S) → P s
      → P (((λ f s. (r, f, s)) >>= n) f s).2
  bind_keeps (ok a) n kn f s h = (kn a).at f s h
  bind_keeps (err e) n kn f s h = h

  pub Keeps-bind :
      (m : Exec S A) (n : A → Exec S B) → Keeps P m → ((a : A) → Keeps P (n a)) → Keeps P (m >>= n)
  Keeps-bind m n km kn = record {
    at = λ f s h. let (r, f', s') = m f s in bind_keeps r n kn f' s' (km.at f s h);
  }

module _ {ℓ κ} {S A : Type ℓ} {P : S → Type κ} where
  catch_keeps :
      (r : Result A) (n : Thrown → Exec S A)
      → ((e : Thrown) → Keeps P (n e))
      → (f : Script) (s : S) → P s
      → P (catch (λ f s. (r, f, s)) n f s).2
  catch_keeps (ok a) n kn f s h = h
  catch_keeps (err e) n kn f s h = (kn e).at f s h

  pub Keeps-catch :
      (m : Exec S A) (n : Thrown → Exec S A)
      → Keeps P m
      → ((e : Thrown) → Keeps P (n e))
      → Keeps P (catch m n)
  Keeps-catch m n km kn = record {
    at = λ f s h. let (r, f', s') = m f s in catch_keeps r n kn f' s' (km.at f s h);
  }

  rollback-Keeps : (n : Exec S A) → Keeps P n → Keeps P (rollback n)
  rollback-Keeps n kn = Keeps-bind ping (λ _. n) (Keeps-call _ _ (λ s h. h)) (λ _. kn)

  finish-Keeps :
      (r : Result A) (s' : S) (n : Thrown → Exec S A)
      → ((e : Thrown) → Keeps P (n e))
      → P s'
      → Keeps P (finish r s' n)
  finish-Keeps (ok a) s' n kn p =
      Keeps-catch _ _ (Keeps-call _ _ (λ s h. p)) (λ e. rollback-Keeps (n e) (kn e))
  finish-Keeps (err e) s' n kn p = rollback-Keeps (n e) (kn e)

  pub Keeps-transaction :
      (m : Exec S A) (n : Thrown → Exec S A)
      → Keeps P m
      → ((e : Thrown) → Keeps P (n e))
      → Keeps P (transaction m n)
  unfolding transaction
  Keeps-transaction m n km kn = record {
    at = λ f s h.
        let began = Keeps-bind ping (λ _. m) (Keeps-call _ _ (λ s h. h)) (λ _. km) in
        let (r, f', s') = (ping {S = S} >> m) f s in
        (finish-Keeps r s' n kn (began.at f s h)).at f' s h;
  }
