-- ===== src/Gateway/Replay.antt =====
-- services/api-gateway/src/middleware/idempotency.js: a request whose answer is cached.
use cn_banking_transaction_s.Base.{
  &&-true, ◌==◌, ℕ, ◌≡◌, refl, sym, subst, Bool, true, false, String, Option, none, some, List, [],
  ◌∷◌, arith, str_eq, eq_iff, Bool-cases, inl, inr, leb,
}
use cn_banking_transaction_s.Effect.{
  delivered, lost, reply_lost, axios, Result, ok, err, Script, Exec, pure, Response,
}
use cn_banking_transaction_s.Effect.Keeps.{
  Keeps, Keeps-pure, Keeps-call, Keeps-bind, Keeps-catch, Keeps-request,
}
use cn_banking_transaction_s.Types.{Transfer}
use cn_banking_transaction_s.TransferService.{World, Config}
use cn_banking_transaction_s.TransferService.Routes.{create_transfer}
use cn_banking_transaction_s.WebPortal.{non_empty}
use cn_banking_transaction_s.Gateway.{
  IdempotencyKey, same_key, Gateway, GatewayReply, passed_on, status_of, find_cached, has_lock,
  redis_failure, get_cached, acquire, release, store_and_release, cache_proxy_response,
  on_transfer_service, intercepted, no_answer, upstream, locked, looked_up, with_key, idempotent,
  TransferPost, post_transfer, post_all,
}

-- The answer `r` is in the cache under `k`.
abbrev pub Cached : IdempotencyKey → Response Transfer → Gateway → Type 0
Cached k r g = find_cached k g.cache ≡ some r

-- The answer is `r`, or there is none since Redis failed; nothing has changed.
abbrev pub Replayed : Response Transfer → Gateway → Result GatewayReply × Script × Gateway → Type 0
Replayed r g (ok reply, f, g') = (reply ≡ passed_on r) × (g' ≡ g)
Replayed r g (err e, f, g') = (e ≡ redis_failure) × (g' ≡ g)

same_key_sound : (a b : IdempotencyKey) → same_key a b ≡ true → a ≡ b
unfolding same_key
same_key_sound a b e =
    let (u, texts) = &&-true (a.user == b.user) _ e in
    let (m, rest) = &&-true (str_eq a.http_method b.http_method) _ texts in
    let (l, k) = &&-true (str_eq a.original_url b.original_url) _ rest in
    let users : a.user ≡ b.user = ground arith in
    let methods = (eq_iff a.http_method b.http_method).0 m in
    let urls = (eq_iff a.original_url b.original_url).0 l in
    let keys = (eq_iff a.key b.key).0 k in
    λ i. record { user = users i; http_method = methods i; original_url = urls i; key = keys i }

module _ (k : IdempotencyKey) (r : Response Transfer) where
  with_key-Replayed :
      (m : Exec World (Response Transfer)) (f : Script) (g : Gateway)
      → Cached k r g
      → Replayed r g (with_key k m f g)
  unfolding with_key looked_up
  with_key-Replayed m [] g h = rw h (refl, refl)
  with_key-Replayed m (delivered ∷ f) g h = rw h (refl, refl)
  with_key-Replayed m (lost ∷ f) g h = (refl, refl)
  with_key-Replayed m (reply_lost ∷ f) g h = (refl, refl)

  unchanged :
      (g : Gateway) (end : Result GatewayReply × Script × Gateway) → Replayed r g end → end.2 ≡ g
  unchanged g (ok reply, f, g') h = h.1
  unchanged g (err e, f, g') h = h.1

  module _ (j : IdempotencyKey) (other : same_key k j ≡ false) where
    acquire-Cached : (g : Gateway) → Cached k r g → Cached k r (acquire j g).1
    acquire-Cached g h = elim (Bool-cases (has_lock j g.locks)) [
      | inl held ↦ rw held h
      | inr free ↦ rw free h
    ]

    store-Cached :
        (x : Response Transfer) (g : Gateway)
        → Cached k r g
        → Cached k r (store_and_release j x g).1
    unfolding find_cached
    store-Cached x g h = rw other h

    cache_proxy_response-Cached :
        (x : Response Transfer) → Keeps (Cached k r) (cache_proxy_response j x)
    unfolding cache_proxy_response
    cache_proxy_response-Cached x = record {
      at = λ f g h. elim (Bool-cases (leb 500 (status_of x))) [
        | inl bad ↦
            rw bad ((Keeps-call {P = Cached k r} redis_failure (release j) (λ g h. h)).at f g h)
        | inr good ↦ rw good (
            (Keeps-call {P = Cached k r} redis_failure (store_and_release j x) (store-Cached x)).at
              f g h)
      ];
    }

    intercepted-Cached : (o : Option (Response Transfer)) → Keeps (Cached k r) (intercepted j o)
    unfolding intercepted
    intercepted-Cached none = Keeps-pure _
    intercepted-Cached (some x) =
        Keeps-bind _ _
          (Keeps-catch (cache_proxy_response j x) (λ e. pure tt) (cache_proxy_response-Cached x)
            (λ e. Keeps-pure tt))
          (λ u. Keeps-pure _)

    upstream-Cached : (m : Exec World (Response Transfer)) → Keeps (Cached k r) (upstream m)
    upstream-Cached m =
        Keeps-catch _ no_answer
          (Keeps-bind _ _
            (Keeps-request (axios none) (on_transfer_service m) (record { at = λ f g h. h }))
            (λ x. Keeps-pure (some x)))
          (λ e. Keeps-pure none)

    locked-Cached :
        (m : Exec World (Response Transfer)) (b : Bool) → Keeps (Cached k r) (locked j m b)
    unfolding locked
    locked-Cached m false = Keeps-pure _
    locked-Cached m true = Keeps-bind _ _ (upstream-Cached m) intercepted-Cached

    looked_up-Cached :
        (m : Exec World (Response Transfer)) (o : Option (Response Transfer))
        → Keeps (Cached k r) (looked_up j m o)
    unfolding looked_up
    looked_up-Cached m (some x) = Keeps-pure _
    looked_up-Cached m none =
        Keeps-bind _ _ (Keeps-call redis_failure (acquire j) acquire-Cached) (locked-Cached m)

    with_key-Cached : (m : Exec World (Response Transfer)) → Keeps (Cached k r) (with_key j m)
    unfolding with_key
    with_key-Cached m =
        Keeps-bind _ _ (Keeps-call redis_failure (get_cached j) (λ g h. h)) (looked_up-Cached m)

  any_key-Cached :
      (j : IdempotencyKey) (m : Exec World (Response Transfer)) (f : Script) (g : Gateway)
      → Cached k r g
      → Cached k r (with_key j m f g).2
  any_key-Cached j m f g h = elim (Bool-cases (same_key k j)) [
    | inl same ↦
        subst (λ i. Cached k r (with_key i m f g).2) (same_key_sound k j same)
          (subst (Cached k r) (sym (unchanged g (with_key k m f g) (with_key-Replayed m f g h))) h)
    | inr other ↦ (with_key-Cached j other m).at f g h
  ]

  module _ (uuid_of : String → Option ℕ) (config : Config) where
    post_transfer-Cached :
        (p : TransferPost) (f : Script) (g : Gateway)
        → Cached k r g
        → Cached k r (post_transfer uuid_of config p f g).2
    unfolding post_transfer idempotent
    post_transfer-Cached p f g h = go (non_empty p.idempotency_key)
      where
        go :
            (o : Option String)
            → Cached k r
                (idempotent p.user p.original_url o
                  (create_transfer uuid_of config p.fresh p.body)
                  f
                  g).2
        go none = h
        go (some key) =
            any_key-Cached
              (record {
                user = p.user;
                http_method = "POST";
                original_url = p.original_url;
                key = key;
              })
              (create_transfer uuid_of config p.fresh p.body) f g h

    post_all-Cached :
        (ps : List (TransferPost × Script)) (g : Gateway)
        → Cached k r g
        → Cached k r (post_all uuid_of config ps g)
    unfolding post_all
    post_all-Cached [] g h = h
    post_all-Cached ((p, f) ∷ ps) g h =
        post_all-Cached ps (post_transfer uuid_of config p f g).2 (post_transfer-Cached p f g h)

-- A transfer that was answered is not made again: once the gateway has cached the answer to a POST
-- of a user by a URL with a key, then behind any sequence of POST /v1/transfers, of whatever users,
-- URLs, keys and bodies, and whatever calls of Redis and of the services fail, a further POST of
-- that user by the same URL with the same key is answered with the cached answer, or fails since
-- Redis does, and changes neither the accounts nor the transfers nor the cache. Its body is not
-- compared. The entry is taken to be alive.
pub post_all-Replayed :
    (uuid_of : String → Option ℕ) (config : Config) (r : Response Transfer) (p : TransferPost)
    (key : String) (ps : List (TransferPost × Script)) (f : Script) (g : Gateway)
    → non_empty p.idempotency_key ≡ some key
    → find_cached
        (record { user = p.user; http_method = "POST"; original_url = p.original_url; key = key })
        g.cache
      ≡ some r
    → Replayed r
        (post_all uuid_of config ps g)
        (post_transfer uuid_of config p f (post_all uuid_of config ps g))
unfolding post_transfer idempotent
post_all-Replayed uuid_of config r p key ps f g sent h =
    let k : IdempotencyKey = record {
      user = p.user;
      http_method = "POST";
      original_url = p.original_url;
      key = key;
    } in
    let kept = post_all-Cached k r uuid_of config ps g h in
    subst
      (λ o. Replayed r (post_all uuid_of config ps g) (
        idempotent p.user p.original_url o (create_transfer uuid_of config p.fresh p.body) f
          (post_all uuid_of config ps g)))
      (sym sent)
      (with_key-Replayed k r (create_transfer uuid_of config p.fresh p.body) f
        (post_all uuid_of config ps g) kept)
