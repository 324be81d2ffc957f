-- ===== src/Effect/Once.antt =====
-- Runs that make one statement which may write, and only read behind it.
use cn_banking_transaction_s.Base.{◌≡◌, refl, ◌⊎◌, inl, inr, [], ◌∷◌}
use cn_banking_transaction_s.Effect.{
  delivered, lost, reply_lost, Script, Thrown, Result, Exec, query, catch, ◌>>=◌,
}
use cn_banking_transaction_s.Effect.Keeps.{Keeps, Keeps-bind, Keeps-catch}

-- `m` leaves every state as it is.
abbrev pub Reads : {S A : Type 0} → Exec S A → Type 0
Reads {S} m = (s0 : S) → Keeps (λ s. s ≡ s0) m

module _ {S A B : Type 0} (op : S → Result A × S) (k : A → Exec S B) (h : Thrown → Exec S B)
    (rk : (a : A) → Reads (k a)) (rh : (e : Thrown) → Reads (h e)) where
  after_op :
      (r : Result A) (s0 : S) (f : Script) (s : S)
      → s ≡ s0
      → (catch ((λ f s. (r, f, s)) >>= k) h f s).2 ≡ s0
  after_op r s0 f s e =
      (Keeps-catch {P = λ s. s ≡ s0} _ h
          (Keeps-bind (λ f s. (r, f, s)) k (record { at = λ f s e. e }) (λ a. rk a s0))
          (λ x. rh x s0)).at
        f s e

  -- The state is as before, or as the statement makes it.
  pub once :
      (f : Script) (s : S)
      → ((catch (query op >>= k) h f s).2 ≡ s) ⊎ ((catch (query op >>= k) h f s).2 ≡ (op s).1)
  once [] s = inr (after_op (op s).0 (op s).1 [] (op s).1 refl)
  once (delivered ∷ f) s = inr (after_op (op s).0 (op s).1 f (op s).1 refl)
  once (lost ∷ f) s = inl ((rh _ s).at f s refl)
  once (reply_lost ∷ f) s = inr ((rh _ (op s).1).at f (op s).1 refl)
