-- ===== src/FraudService/Alerts.antt =====
-- services/fraud-service/src/index.ts: the alerts and the counts that the fraud service answers
-- with. Times are in milliseconds.
use cn_banking_transaction_s.Base.{
  &&-true, ℕ, ◌+◌, ◌-◌, ◌*◌, ◌≤◌, ◌≡◌, refl, Bool, true, false, ◌&&◌, Option, none, some, List, [],
  ◌∷◌, arith, drop, length, length-take_le, leb, ◌==◌, if◌then◌else◌, All, Bool-cases, inl, inr,
  All-take, All-drop, ap,
}
use cn_banking_transaction_s.Types.{FraudSeverity, low, medium, high, critical}
use cn_banking_transaction_s.LedgerService.{same_text}
use cn_banking_transaction_s.LedgerService.Queries.{
  Param, page_or_one, positive_or, optional_time, at_least, at_most, paginate,
}
use cn_banking_transaction_s.FraudService.{FraudEvent, FraudWorld}
use cn_banking_transaction_s.LedgerService.Queries.Pages.{
  NotBefore, NotAfter, at_least-NotBefore, at_most-NotAfter,
}
use cn_banking_transaction_s.Effect.{
  delivered, lost, reply_lost, Script, Result, ok, err, Exec, pure, query, ◌>>=◌, Response, success,
  failure, validation_error, not_found,
}

pub record AlertsQuery : Type 0 where
  pub severity : Option FraudSeverity
  pub account_id : Option ℕ
  pub from : Option ℕ
  pub to : Option ℕ
  pub page : ℕ
  pub limit : ℕ

-- A query parameter that is absent, or there, where `some none` is what the schema refuses.
pub record RawAlertsQuery : Type 0 where
  pub severity : Option (Option FraudSeverity)
  pub account_id : Param
  pub from : Param
  pub to : Param
  pub page : Param
  pub limit : Param

-- z.enum([...]).optional() and z.string().uuid().optional()
abbrev pub optional {ℓ} : {A : Type ℓ} → Option (Option A) → Option (Option A)
optional none = some none
optional (some none) = none
optional (some (some a)) = some (some a)

abbrev pub alerts_query_of :
    Option (Option FraudSeverity)
    → Option (Option ℕ)
    → Option (Option ℕ)
    → Option (Option ℕ)
    → Option ℕ
    → Option ℕ
    → Option AlertsQuery
alerts_query_of (some severity) (some account) (some from) (some to) (some page) (some limit) =
    some (record {
      severity = severity;
      account_id = account;
      from = from;
      to = to;
      page = page;
      limit = limit;
    })
alerts_query_of _ _ _ _ _ _ = none

-- `alertsQuerySchema`
unfoldable pub alerts_query_schema : RawAlertsQuery → Option AlertsQuery
alerts_query_schema q =
    alerts_query_of (optional q.severity) (optional q.account_id) (optional_time q.from)
      (optional_time q.to) (page_or_one q.page) (positive_or 100 20 q.limit)

abbrev pub same_severity : FraudSeverity → FraudSeverity → Bool
same_severity low low = true
same_severity medium medium = true
same_severity high high = true
same_severity critical critical = true
same_severity _ _ = false

abbrev pub of_severity : Option FraudSeverity → FraudSeverity → Bool
of_severity none s = true
of_severity (some wanted) s = same_severity wanted s

abbrev pub of_account : Option ℕ → ℕ → Bool
of_account none id = true
of_account (some wanted) id = wanted == id

-- The filter of the query.
abbrev pub alert_matches : AlertsQuery → FraudEvent → Bool
alert_matches q e =
    of_severity q.severity e.severity
    && (of_account q.account_id e.from_account_id
        && (at_least q.from e.created_at && at_most q.to e.created_at))

unfoldable pub select_alerts : (FraudEvent → Bool) → List FraudEvent → List FraudEvent
select_alerts test [] = []
select_alerts test (e ∷ es) = if test e then e ∷ select_alerts test es else select_alerts test es

abbrev pub insert_newest_alert : FraudEvent → List FraudEvent → List FraudEvent
insert_newest_alert e [] = e ∷ []
insert_newest_alert e (x ∷ xs) =
    if leb x.created_at e.created_at then e ∷ x ∷ xs else x ∷ insert_newest_alert e xs

-- .sort({ createdAt: -1 })
unfoldable pub newest_alerts : List FraudEvent → List FraudEvent
newest_alerts [] = []
newest_alerts (e ∷ es) = insert_newest_alert e (newest_alerts es)

abbrev pub list_valid : Option AlertsQuery → Exec FraudWorld (Response (List FraudEvent))
list_valid none = pure (failure 400 validation_error)
list_valid (some q) = query (λ w. (
  ok (
      success 200
        (paginate q.page q.limit (newest_alerts (select_alerts (alert_matches q) w.fraud_events)))),
  w,
))

-- GET /v1/fraud/alerts; what MongoDB's driver throws is not caught.
unfoldable pub list_alerts : RawAlertsQuery → Exec FraudWorld (Response (List FraudEvent))
unfolding alerts_query_schema newest_alerts select_alerts paginate
list_alerts raw = list_valid (alerts_query_schema raw)

-- findOne({ alertId })
unfoldable pub find_alert : List ℕ → List FraudEvent → Response FraudEvent
find_alert id [] = failure 404 not_found
find_alert id (e ∷ es) =
    let rest = find_alert id es in if same_text id e.alert_id then success 200 e else rest

-- GET /v1/fraud/alerts/:alertId
unfoldable pub get_alert : Option (List ℕ) → Exec FraudWorld (Response FraudEvent)
unfolding find_alert
get_alert none = pure (failure 400 validation_error)
get_alert (some id) = query (λ w. (ok (find_alert id w.fraud_events), w))

-- { $match: { createdAt: { $gte: start } } }, and the count of one severity
unfoldable pub count_since : ℕ → FraudSeverity → List FraudEvent → ℕ
count_since start s [] = 0
count_since start s (e ∷ es) =
    let rest = count_since start s es in
    if leb start e.created_at && same_severity s e.severity then rest + 1 else rest

pub record Counts : Type 0 where
  pub low_count : ℕ
  pub medium_count : ℕ
  pub high_count : ℕ
  pub critical_count : ℕ

-- { $group: { _id: '$severity', count: { $sum: 1 } } }; a severity without an alert counts 0 here.
unfoldable pub counts_since : ℕ → List FraudEvent → Counts
unfolding count_since
counts_since start es = record {
  low_count = count_since start low es;
  medium_count = count_since start medium es;
  high_count = count_since start high es;
  critical_count = count_since start critical es;
}

-- GET /v1/fraud/stats, from the start of the day and from seven days ago: two calls, which the code
-- starts together.
unfoldable pub fraud_stats : ℕ → ℕ → Exec FraudWorld (Counts × Counts)
unfolding counts_since
fraud_stats today_start week_start = do
  today ← query (λ w. (ok (counts_since today_start w.fraud_events), w))
  this_week ← query (λ w. (ok (counts_since week_start w.fraud_events), w))
  pure (today, this_week)

-- The parameters of a query that an alert has to meet, each where it is given.
abbrev pub OfSeverity : Option FraudSeverity → FraudSeverity → Type 0
OfSeverity none s = Unit
OfSeverity (some wanted) s = s ≡ wanted

abbrev pub OfAccount : Option ℕ → ℕ → Type 0
OfAccount none id = Unit
OfAccount (some wanted) id = id ≡ wanted

abbrev pub AskedAlert : AlertsQuery → FraudEvent → Type 0
AskedAlert q e =
    OfSeverity q.severity e.severity
    × OfAccount q.account_id e.from_account_id
    × NotBefore q.from e.created_at
    × NotAfter q.to e.created_at

of_severity-OfSeverity :
    (o : Option FraudSeverity) (s : FraudSeverity) → of_severity o s ≡ true → OfSeverity o s
of_severity-OfSeverity none s h = tt
of_severity-OfSeverity (some low) low h = refl
of_severity-OfSeverity (some medium) medium h = refl
of_severity-OfSeverity (some high) high h = refl
of_severity-OfSeverity (some critical) critical h = refl
of_severity-OfSeverity _ _ h = cc

of_account-OfAccount : (o : Option ℕ) (id : ℕ) → of_account o id ≡ true → OfAccount o id
of_account-OfAccount none id h = tt
of_account-OfAccount (some wanted) id h = ground arith

alert_matches-AskedAlert :
    (q : AlertsQuery) (e : FraudEvent) → alert_matches q e ≡ true → AskedAlert q e
alert_matches-AskedAlert q e h =
    let (severity, more) = &&-true (of_severity q.severity e.severity) _ h in
    let (account, times) = &&-true (of_account q.account_id e.from_account_id) _ more in
    let (from, to) = &&-true (at_least q.from e.created_at) _ times in
    (
      of_severity-OfSeverity q.severity e.severity severity,
      of_account-OfAccount q.account_id e.from_account_id account,
      at_least-NotBefore q.from e.created_at from,
      at_most-NotAfter q.to e.created_at to,
    )

abbrev pub AllAsked : AlertsQuery → List FraudEvent → Type 0
AllAsked q es = All (λ e. AskedAlert q e) es

module _ (q : AlertsQuery) where
  select-AllAsked : (es : List FraudEvent) → AllAsked q (select_alerts (alert_matches q) es)
  unfolding select_alerts
  select-AllAsked [] = tt
  select-AllAsked (e ∷ es) = elim (Bool-cases (alert_matches q e)) [
    | inl fits ↦ rw fits (alert_matches-AskedAlert q e fits, select-AllAsked es)
    | inr other ↦ rw other (select-AllAsked es)
  ]

  insert-AllAsked :
      (e : FraudEvent) (es : List FraudEvent)
      → AskedAlert q e
      → AllAsked q es
      → AllAsked q (insert_newest_alert e es)
  insert-AllAsked e [] m h = (m, tt)
  insert-AllAsked e (x ∷ xs) m h = elim (Bool-cases (leb x.created_at e.created_at)) [
    | inl before ↦ rw before (m, h)
    | inr behind ↦ rw behind (h.0, insert-AllAsked e xs m h.1)
  ]

  newest-AllAsked : (es : List FraudEvent) → AllAsked q es → AllAsked q (newest_alerts es)
  unfolding newest_alerts
  newest-AllAsked [] h = tt
  newest-AllAsked (e ∷ es) h = insert-AllAsked e (newest_alerts es) h.0 (newest-AllAsked es h.1)

-- The next call fails.
abbrev pub fails_next : Script → Bool
fails_next [] = false
fails_next (delivered ∷ f) = false
fails_next (lost ∷ f) = true
fails_next (reply_lost ∷ f) = true

-- The end of GET /v1/fraud/alerts, from a script and a world: 400 to a query that the schema
-- refuses; else 200 with at most 100 alerts that it asks for, or an error where the call of MongoDB
-- fails. Nothing changes.
abbrev pub AlertsAnswered :
    Option AlertsQuery
    → Script
    → FraudWorld
    → Result (Response (List FraudEvent)) × Script × FraudWorld
    → Type 0
AlertsAnswered none f w (ok (success c es), g, w') = ⊥
AlertsAnswered none f w (ok (failure c x), g, w') = (c ≡ 400) × (w' ≡ w)
AlertsAnswered none f w (err e, g, w') = ⊥
AlertsAnswered (some q) f w (ok (success c es), g, w') =
    (c ≡ 200) × (length es ≤ 100) × AllAsked q es × (fails_next f ≡ false) × (w' ≡ w)
AlertsAnswered (some q) f w (ok (failure c x), g, w') = ⊥
AlertsAnswered (some q) f w (err e, g, w') = (fails_next f ≡ true) × (w' ≡ w)

positive_or_le :
    (top value : ℕ) (p : Param) (n : ℕ) → value ≤ top → positive_or top value p ≡ some n → n ≤ top
positive_or_le top value none n v h = ground arith
positive_or_le top value (some none) n v h = cc
positive_or_le top value (some (some k)) n v h = ground arith

abbrev limit_of : Option AlertsQuery → Option ℕ
limit_of none = none
limit_of (some q) = some q.limit

alerts_query_limit :
    (s : Option (Option FraudSeverity)) (a f t : Option (Option ℕ)) (p l : Option ℕ)
    (q : AlertsQuery)
    → alerts_query_of s a f t p l ≡ some q
    → l ≡ some q.limit
alerts_query_limit (some s) (some a) (some f) (some t) (some p) (some l) q h = ap limit_of h
alerts_query_limit _ _ _ _ _ _ q h = cc

schema_limit :
    (raw : RawAlertsQuery) (q : AlertsQuery) → alerts_query_schema raw ≡ some q → q.limit ≤ 100
unfolding alerts_query_schema
schema_limit raw q h = positive_or_le 100 20 raw.limit q.limit (omega arith) (
    alerts_query_limit (optional raw.severity) (optional raw.account_id) (optional_time raw.from)
      (optional_time raw.to) (page_or_one raw.page) (positive_or 100 20 raw.limit) q h)

page-AllAsked :
    (q : AlertsQuery) (es : List FraudEvent)
    → AllAsked q (paginate q.page q.limit (newest_alerts (select_alerts (alert_matches q) es)))
unfolding paginate
page-AllAsked q es =
    let found : List FraudEvent = newest_alerts (select_alerts (alert_matches q) es) in
    All-take (λ e. AskedAlert q e) q.limit (drop ((q.page - 1) * q.limit) found)
      (All-drop (λ e. AskedAlert q e) ((q.page - 1) * q.limit) found
        (newest-AllAsked q (select_alerts (alert_matches q) es) (select-AllAsked q es)))

page-length :
    (q : AlertsQuery) (es : List FraudEvent)
    → q.limit ≤ 100
    → length (paginate q.page q.limit es) ≤ 100
unfolding paginate
page-length q es h = omega (arith, h, length-take_le q.limit (drop ((q.page - 1) * q.limit) es))

list_valid-AlertsAnswered :
    (o : Option AlertsQuery) (f : Script) (w : FraudWorld)
    → ((q : AlertsQuery) → o ≡ some q → q.limit ≤ 100)
    → AlertsAnswered o f w (list_valid o f w)
list_valid-AlertsAnswered none f w h = (refl, refl)
list_valid-AlertsAnswered (some q) [] w h =
    (refl, page-length q _ (h q refl), page-AllAsked q w.fraud_events, refl, refl)
list_valid-AlertsAnswered (some q) (delivered ∷ f) w h =
    (refl, page-length q _ (h q refl), page-AllAsked q w.fraud_events, refl, refl)
list_valid-AlertsAnswered (some q) (lost ∷ f) w h = (refl, refl)
list_valid-AlertsAnswered (some q) (reply_lost ∷ f) w h = (refl, refl)

-- GET /v1/fraud/alerts answers a query that its schema refuses with 400. Any other query it answers
-- with 200 if the call of MongoDB gets through, and with at most 100 alerts: each has the severity
-- and the account that the query names, and was made no earlier than `from` and no later than
-- `to`, where they are given. If that call fails, the handler throws. Nothing is changed.
pub list_alerts-AlertsAnswered :
    (raw : RawAlertsQuery) (f : Script) (w : FraudWorld)
    → AlertsAnswered (alerts_query_schema raw) f w (list_alerts raw f w)
unfolding list_alerts
list_alerts-AlertsAnswered raw f w =
    list_valid-AlertsAnswered (alerts_query_schema raw) f w (schema_limit raw)
