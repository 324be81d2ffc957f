-- ===== src/WebPortal/Client/Attempts.antt =====
-- services/web-portal/src/lib/api/client.ts: when `requestJson` rejects.
use cn_banking_transaction_s.Base.{
  ◌≡◌, refl, Bool, true, false, String, Option, none, some, [], ◌∷◌, if◌then◌else◌,
}
use cn_banking_transaction_s.Effect.{
  delivered, lost, reply_lost, Script, Thrown, Result, ok, err, Exec, pure, throw, catch, ◌>>=◌,
}
use cn_banking_transaction_s.WebPortal.{non_empty}
use cn_banking_transaction_s.WebPortal.Client.{
  ApiResult, FetchResponse, RequestInit, FirstEnd, first_result, is_unauthorized, attempt,
  behind_first, refreshed, with_refreshed, network_failure, last_attempt, request_json, result_of,
  throws_type_error, type_error,
}

module _ {S A : Type 0} (fetch : Option String → S → FetchResponse A × S) where
  -- The first request was answered with 401, the refresh gave a token, and the request with that
  -- token has thrown.
  pub record RetryThrown (init : RequestInit S) (e : Thrown) (s : S) : Type 0 where
    pub refresh : Exec S (Option String)
    pub given : init.refresh_access_token ≡ some refresh
    pub retries : init.retry_on_unauthorized ≡ true
    pub readable : throws_type_error (fetch (non_empty init.access_token) s).0 ≡ false
    pub unauthorized : is_unauthorized (result_of (fetch (non_empty init.access_token) s).0) ≡ true
    pub before : Script
    pub answer : Option String
    pub token : String
    pub returned : (refresh before (fetch (non_empty init.access_token) s).1).0 ≡ ok answer
    pub token_given : non_empty answer ≡ some token
    pub thrown :
        (attempt fetch
          (some token)
          (refresh before (fetch (non_empty init.access_token) s).1).1
          (refresh before (fetch (non_empty init.access_token) s).1).2).0
        ≡ err e

  abbrev behind_refresh :
      ApiResult (Option A)
      → Result (Option String) × Script × S
      → Result (ApiResult (Option A)) × Script × S
  behind_refresh first (r, f, s) =
      (catch ((λ f s. (r, f, s)) >>= λ token. with_refreshed fetch first (non_empty token))
            (network_failure fetch)
          >>= last_attempt fetch)
        f s

  abbrev Token : Thrown → Result (Option String) × Script × S → Type 0
  Token e r =
      (answer : Option String) × (token : String) × (r.0 ≡ ok answer)
      × (non_empty answer ≡ some token)
      × ((attempt fetch (some token) r.1 r.2).0 ≡ err e)

  refresh_throws :
      (first : ApiResult (Option A)) (e : Thrown) (r : Result (Option String) × Script × S)
      → (behind_refresh first r).0 ≡ err e
      → Token e r
  unfolding attempt
  refresh_throws first e (err x, f, s) h = cc
  refresh_throws first e (ok answer, f, s) h = token_throws (non_empty answer) refl h
    where
      token_throws :
          (o : Option String)
          → non_empty answer ≡ o
          → ((catch (with_refreshed fetch first o) (network_failure fetch) >>= last_attempt fetch) f
              s).0
            ≡ err e
          → Token e (ok answer, f, s)
      token_throws none g k = cc
      token_throws (some token) g k = (answer, token, refl, g, k)

  -- The rest of `requestJson`, behind what the first request has led to.
  abbrev ending :
      Result (FirstEnd (Option A)) × Script × S → Result (ApiResult (Option A)) × Script × S
  ending (r, f, s) = (catch (λ f s. (r, f, s)) (network_failure fetch) >>= last_attempt fetch) f s

  first_throws :
      (init : RequestInit S) (first : ApiResult (Option A)) (e : Thrown) (f : Script) (s : S)
      → (ending (behind_first fetch init first f s)).0 ≡ err e
      → (is_unauthorized first ≡ true)
        × (init.retry_on_unauthorized ≡ true)
        × (refresh : Exec S (Option String)) × (init.refresh_access_token ≡ some refresh)
        × Token e (refresh f s)
  unfolding behind_first attempt
  first_throws init first e f s h =
      unauthorized (is_unauthorized first) refl init.refresh_access_token refl
        init.retry_on_unauthorized refl h
    where
      unauthorized :
          (b : Bool)
          → is_unauthorized first ≡ b
          → (o : Option (Exec S (Option String))) → init.refresh_access_token ≡ o
          → (retry : Bool) → init.retry_on_unauthorized ≡ retry
          → (ending
              (if b then refreshed fetch first o retry f s else (ok (first_result first), f, s))).0
            ≡ err e
          → (is_unauthorized first ≡ true)
            × (init.retry_on_unauthorized ≡ true)
            × (refresh : Exec S (Option String)) × (init.refresh_access_token ≡ some refresh)
            × Token e (refresh f s)
      unauthorized false u o g retry r k = cc
      unauthorized true u none g retry r k = cc
      unauthorized true u (some refresh) g false r k = cc
      unauthorized true u (some refresh) g true r k =
          (u, r, refresh, g, refresh_throws first e (refresh f s) k)

  attempted :
      (init : RequestInit S) (e : Thrown) (f : Script) (s : S) (malformed : Bool)
      → throws_type_error (fetch (non_empty init.access_token) s).0 ≡ malformed
      → (ending (
          ((if malformed
                then throw type_error
                else pure (result_of (fetch (non_empty init.access_token) s).0))
              >>= behind_first fetch init)
            f
            (fetch (non_empty init.access_token) s).1)).0
        ≡ err e
      → RetryThrown init e s
  unfolding attempt
  attempted init e f s true m h = cc
  attempted init e f s false m h =
      let (u, r, refresh, g, t) =
        first_throws init (result_of (fetch (non_empty init.access_token) s).0) e f
          (fetch (non_empty init.access_token) s).1 h in
      record {
        refresh = refresh;
        given = g;
        retries = r;
        readable = m;
        unauthorized = u;
        before = f;
        answer = t.0;
        token = t.1;
        returned = t.2;
        token_given = t.3;
        thrown = t.4;
      }

  -- `requestJson` answers with a result, whatever calls fail, except in one case: the first request
  -- was answered with 401, there is a refresh and the retry is not switched off, the refresh has
  -- given a token that is not empty, and the request with that token has thrown; then what it threw
  -- is thrown.
  pub request_json-RetryThrown :
      (init : RequestInit S) (e : Thrown) (f : Script) (s : S)
      → (request_json fetch init f s).0 ≡ err e
      → RetryThrown init e s
  unfolding request_json attempt
  request_json-RetryThrown init e [] s h =
      attempted init e [] s (throws_type_error (fetch (non_empty init.access_token) s).0) refl h
  request_json-RetryThrown init e (delivered ∷ f) s h =
      attempted init e f s (throws_type_error (fetch (non_empty init.access_token) s).0) refl h
  request_json-RetryThrown init e (lost ∷ f) s h = cc
  request_json-RetryThrown init e (reply_lost ∷ f) s h = cc
