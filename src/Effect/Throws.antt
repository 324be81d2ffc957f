-- ===== src/Effect/Throws.antt =====
-- Runs that throw and leave the state as it is.
use cn_banking_transaction_s.Base.{◌≡◌, refl, [], ◌∷◌}
use cn_banking_transaction_s.Effect.{
  delivered, lost, reply_lost, Script, Thrown, Result, ok, err, Exec, request, ◌>>=◌,
}

abbrev pub Throws : {S A : Type 0} → S → Result A × Script × S → Type 0
Throws s (ok a, f, s') = ⊥
Throws s (err e, f, s') = s' ≡ s

pub bind-Throws :
    {S A B : Type 0} (s : S) (r : Result A × Script × S) (n : A → Exec S B)
    → Throws s r
    → Throws s (((λ f s'. r) >>= n) r.1 s)
bind-Throws s (ok a, f, s') n h = absurd h
bind-Throws s (err e, f, s') n h = h

lost_reply-Throws :
    {S A : Type 0} (e : Thrown) (s : S) (r : Result A × Script × S)
    → Throws s r
    → Throws {A = A} s (err e, r.1, r.2)
lost_reply-Throws e s (ok a, f, s') h = absurd h
lost_reply-Throws e s (err x, f, s') h = h

-- A request whose handler refuses throws, whether the reply comes or not.
pub request-Throws :
    {S A : Type 0} (e : Thrown) (m : Exec S A) (f : Script) (s : S)
    → ((f' : Script) → Throws s (m f' s))
    → Throws s (request e m f s)
request-Throws e m [] s h = h []
request-Throws e m (delivered ∷ f) s h = h f
request-Throws e m (lost ∷ f) s h = refl
request-Throws e m (reply_lost ∷ f) s h = lost_reply-Throws e s (m f s) (h f)
