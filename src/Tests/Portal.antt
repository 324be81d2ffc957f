-- ===== src/Tests/Portal.antt =====
-- The theorems on the web portal, at small data.
use cn_banking_transaction_s.Base.{
  ℕ, zero, suc, ◌+◌, ◌*◌, ◌≡◌, refl, sym, ◌∙◌, true, String, Option, none, some, List, [], ◌∷◌,
  Bool-cases, inl, inr, arith, if◌then◌else◌,
}
use cn_banking_transaction_s.Effect.{delivered, lost, reply_lost, axios, ok, err}
use cn_banking_transaction_s.Events.{codes}
use cn_banking_transaction_s.Money.{money_regex, after_digit, fraction, cents}
use cn_banking_transaction_s.WebPortal.{
  AuthSession, JwtClaims, json, customer, admin, read_refresh_token, read_stored_session,
  write_stored_session,
}
use cn_banking_transaction_s.WebPortal.Client.{
  FetchResponse, RequestInit, request_json, attempt, behind_first, result_of, throws_type_error,
  to_lower_case, normalize_gateway_error, to_retry_after, default_error_by_status,
}
use cn_banking_transaction_s.WebPortal.Client.Attempts.{RetryThrown, request_json-RetryThrown}
use cn_banking_transaction_s.WebPortal.Auth.{
  Browser, RefreshResponse, session_from_refresh, refresh_auth_session, logout_user,
}
use cn_banking_transaction_s.WebPortal.Auth.Sessions.{
  SignedOut, Refreshed, logout_user-SignedOut, refresh_auth_session-Refreshed,
}
use cn_banking_transaction_s.WebPortal.Routing.Guards.{
  GuardView, restoring, starts_refresh, settled, guard_view, idle, nav_routes, visit,
}
use cn_banking_transaction_s.WebPortal.Routing.Guards.Menu.{open_routes, nav_routes-open_routes}
use cn_banking_transaction_s.WebPortal.Routing.Guards.Visits.{Decided, visit-Decided}
use cn_banking_transaction_s.WebPortal.Forms.{
  TransferFields, uuid_pattern, money_pattern, is_positive_amount, trim, trim_start, trim_end,
  keep_end, is_space, check_transfer, trimmed, transfer_form_schema,
}
use cn_banking_transaction_s.WebPortal.Forms.Accepted.{
  Accepted, body_of, transfer_form_schema-Accepted,
}

-- A gateway that counts its requests and knows the token "new" only.
abbrev gateway : Option String → ℕ → FetchResponse ℕ × ℕ
gateway token n = (
  record {
    status = elim token [ none ↦ 401 | some t ↦ 200 ];
    data_ = some n;
    error_body = none;
    request_id = none;
    retry_after_header = none;
  },
  suc n,
)

abbrev init : RequestInit ℕ
init = record {
  access_token = none;
  refresh_access_token = some (λ f n. (ok (some "new"), f, n));
  retry_on_unauthorized = true;
}

-- The retry is lost on the way: nothing catches what it throws.
retry_lost : (request_json gateway init (delivered ∷ lost ∷ []) 0).0 ≡ err (axios none)
unfolding request_json attempt behind_first result_of throws_type_error normalize_gateway_error
    to_retry_after default_error_by_status
retry_lost = refl

request_json-RetryThrown_example : RetryThrown gateway init (axios none) 0
request_json-RetryThrown_example =
    request_json-RetryThrown gateway init (axios none) (delivered ∷ lost ∷ []) 0 retry_lost

abbrev claims : String → Option JwtClaims
claims token = some (record { sub = some "user"; role = some "admin"; roles = [] })

abbrev reloaded : Browser ℕ
reloaded = record {
  portal = record {
    in_memory_session = none;
    storage = some (
        json (record {
          access_token = none;
          refresh_token = some "r1";
          role = some admin;
          subject = none;
          expires_at = none;
        }));
  };
  server = 0;
}

abbrev refresh_route : String → Option String → ℕ → FetchResponse RefreshResponse × ℕ
refresh_route refresh_token token n = (
  record {
    status = 200;
    data_ = some (record { access_token = "a2"; expires_in = 900 });
    error_body = none;
    request_id = none;
    retry_after_header = none;
  },
  suc n,
)

-- A response of 200 whose body is no JSON: the guard waits for ever.
abbrev empty_route : String → Option String → ℕ → FetchResponse RefreshResponse × ℕ
empty_route refresh_token token n = (
  record {
    status = 200;
    data_ = none;
    error_body = none;
    request_id = none;
    retry_after_header = none;
  },
  suc n,
)

unfoldable view_behind : GuardView
unfolding visit starts_refresh settled guard_view refresh_auth_session request_json attempt
    behind_first result_of throws_type_error read_refresh_token read_stored_session
    session_from_refresh write_stored_session
view_behind = (visit claims empty_route 5_000 none [] reloaded).0

waits : view_behind ≡ restoring
unfolding view_behind
waits = refl

abbrev logout_route : Option String → Option String → ℕ → FetchResponse (Unit {0}) × ℕ
logout_route refresh_token token n = (
  record {
    status = 503;
    data_ = none;
    error_body = none;
    request_id = none;
    retry_after_header = none;
  },
  suc n,
)

logout_user-SignedOut_example :
    SignedOut claims (logout_user claims logout_route (reply_lost ∷ []) reloaded)
logout_user-SignedOut_example = logout_user-SignedOut claims logout_route (reply_lost ∷ []) reloaded

refresh_auth_session-Refreshed_example :
    Refreshed claims refresh_route reloaded
      (refresh_auth_session claims refresh_route 5_000 [] reloaded)
refresh_auth_session-Refreshed_example =
    refresh_auth_session-Refreshed claims refresh_route 5_000 [] reloaded

abbrev clerk : AuthSession
clerk = record {
  access_token = "a1";
  refresh_token = none;
  role = customer;
  subject = none;
  expires_at = none;
  request_id = none;
}

nav_routes-open_routes_example : nav_routes customer ≡ open_routes true idle clerk
nav_routes-open_routes_example = nav_routes-open_routes true idle clerk

visit-Decided_example :
    Decided claims refresh_route reloaded
      (some (admin ∷ []))
      (visit claims refresh_route 5_000 (some (admin ∷ [])) [] reloaded)
visit-Decided_example = visit-Decided claims refresh_route 5_000 (some (admin ∷ [])) [] reloaded

-- A number for each text: a code and the number of the rest are the exponent of two and the odd
-- part.
abbrev join : ℕ → ℕ → ℕ
join zero n = 2 * n + 1
join (suc c) n = 2 * join c n

abbrev number : List ℕ → ℕ
number [] = 0
number (c ∷ s) = join c (number s)

join_inj : (c d m n : ℕ) → join c m ≡ join d n → (c ≡ d) × (m ≡ n)
join_inj zero zero m n e = (refl, omega arith)
join_inj zero (suc d) m n e = absurd (omega arith)
join_inj (suc c) zero m n e = absurd (omega arith)
join_inj (suc c) (suc d) m n e = let rest = join_inj c d m n (omega arith) in (omega arith, rest.1)

join_positive : (c n : ℕ) → join c n ≡ 0 → ⊥
join_positive zero n e = absurd (omega arith)
join_positive (suc c) n e = join_positive c n (omega arith)

number_inj : (s t : List ℕ) → number s ≡ number t → s ≡ t
number_inj [] [] e = refl
number_inj [] (d ∷ t) e = absurd (join_positive d (number t) (sym e))
number_inj (c ∷ s) [] e = absurd (join_positive c (number s) e)
number_inj (c ∷ s) (d ∷ t) e =
    let (same, rest) = join_inj c d (number s) (number t) e in let tail = number_inj s t rest in cc

abbrev read_uuid : String → Option ℕ
read_uuid text =
    if uuid_pattern (codes text) then some (number (to_lower_case (codes text))) else none

read_uuid_reads :
    (text : String) → uuid_pattern (codes text) ≡ true → (id : ℕ) × (read_uuid text ≡ some id)
read_uuid_reads text e = (number (to_lower_case (codes text)), rw e refl)

read_uuid-number :
    (text : String) (id : ℕ) → read_uuid text ≡ some id → number (to_lower_case (codes text)) ≡ id
read_uuid-number text id e = elim (Bool-cases (uuid_pattern (codes text))) [
  | inl matches ↦ let f = rw (matches) at e in cc
  | inr other ↦ let f = rw (other) at e in cc
]

read_uuid_separates :
    (s t : String) (id : ℕ)
    → read_uuid s ≡ some id
    → read_uuid t ≡ some id
    → to_lower_case (codes s) ≡ to_lower_case (codes t)
read_uuid_separates s t id e f =
    number_inj (to_lower_case (codes s)) (to_lower_case (codes t))
      (read_uuid-number s id e ∙ sym (read_uuid-number t id f))

abbrev fields : TransferFields
fields = record {
  amount = " 12.50";
  from_account_id = "6f1c2d34-1a2b-4c3d-8e4f-0123456789ab";
  to_account_id = "6F1C2D34-1A2B-4C3D-8E4F-0123456789AC ";
}

abbrev input : TransferFields
input = record {
  amount = "12.50";
  from_account_id = "6f1c2d34-1a2b-4c3d-8e4f-0123456789ab";
  to_account_id = "6F1C2D34-1A2B-4C3D-8E4F-0123456789AC";
}

form_takes : transfer_form_schema fields ≡ some input
unfolding transfer_form_schema check_transfer trimmed trim trim_start trim_end keep_end is_space
    uuid_pattern is_positive_amount money_pattern money_regex after_digit fraction cents
form_takes = refl

transfer_form_schema-Accepted_example : Accepted read_uuid (body_of input)
transfer_form_schema-Accepted_example =
    transfer_form_schema-Accepted read_uuid read_uuid_reads read_uuid_separates fields input
      form_takes
