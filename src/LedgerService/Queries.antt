-- ===== src/LedgerService/Queries.antt =====
-- services/ledger-service/src/index.ts: the list of an account's entries that the ledger service
-- answers with. Times are in milliseconds.
pub mod Pages
pub mod Complete
use cn_banking_transaction_s.Base.{
  ℕ, zero, suc, ◌+◌, ◌-◌, ◌*◌, ◌≤◌, ◌≡◌, refl, Bool, true, false, ◌&&◌, Option, none, some, List,
  [], ◌∷◌, ◌++◌, arith, take, drop, length, length-take_le, ltb, leb, ◌==◌, if◌then◌else◌,
}
use cn_banking_transaction_s.Effect.{
  ok, Exec, pure, query, Response, success, failure, validation_error,
}
use cn_banking_transaction_s.LedgerService.{LedgerEntry, LedgerWorld}

-- A query parameter: absent, or there, where `some none` is a text that zod does not coerce.
abbrev pub Param : Type 0
Param = Option (Option ℕ)

pub record ListQuery : Type 0 where
  pub page : ℕ
  pub limit : ℕ
  pub from : Option ℕ
  pub to : Option ℕ

pub record RawListQuery : Type 0 where
  pub page : Param
  pub limit : Param
  pub from : Param
  pub to : Param

-- z.coerce.number().int().positive().max(top).default(value)
abbrev pub positive_or : ℕ → ℕ → Param → Option ℕ
positive_or top value none = some value
positive_or top value (some none) = none
positive_or top value (some (some n)) = if ltb 0 n && leb n top then some n else none

-- z.coerce.number().int().positive().default(1)
abbrev pub page_or_one : Param → Option ℕ
page_or_one none = some 1
page_or_one (some none) = none
page_or_one (some (some n)) = if ltb 0 n then some n else none

-- z.string().datetime().optional()
abbrev pub optional_time : Param → Option (Option ℕ)
optional_time none = some none
optional_time (some none) = none
optional_time (some (some t)) = some (some t)

abbrev pub list_query_of :
    Option ℕ → Option ℕ → Option (Option ℕ) → Option (Option ℕ) → Option ListQuery
list_query_of (some page) (some limit) (some from) (some to) =
    some (record { page = page; limit = limit; from = from; to = to })
list_query_of _ _ _ _ = none

-- `listQuerySchema`
unfoldable pub list_query_schema : RawListQuery → Option ListQuery
list_query_schema q =
    list_query_of (page_or_one q.page) (positive_or 100 20 q.limit) (optional_time q.from)
      (optional_time q.to)

-- $gte and $lte, where they are given
abbrev pub at_least : Option ℕ → ℕ → Bool
at_least none t = true
at_least (some from) t = leb from t

abbrev pub at_most : Option ℕ → ℕ → Bool
at_most none t = true
at_most (some to) t = leb t to

abbrev pub matches : ℕ → ListQuery → LedgerEntry → Bool
matches account q e =
    account == e.account_id && (at_least q.from e.created_at && at_most q.to e.created_at)

unfoldable pub select : (LedgerEntry → Bool) → List LedgerEntry → List LedgerEntry
select test [] = []
select test (e ∷ es) = if test e then e ∷ select test es else select test es

-- .sort({ createdAt: -1 }), where entries of one time stay in order
abbrev pub insert_newest : LedgerEntry → List LedgerEntry → List LedgerEntry
insert_newest e [] = e ∷ []
insert_newest e (x ∷ xs) =
    if leb x.created_at e.created_at then e ∷ x ∷ xs else x ∷ insert_newest e xs

unfoldable pub sort_newest : List LedgerEntry → List LedgerEntry
sort_newest [] = []
sort_newest (e ∷ es) = insert_newest e (sort_newest es)

-- .skip((page - 1) * limit).limit(limit)
unfoldable pub paginate {ℓ} : {A : Type ℓ} → ℕ → ℕ → List A → List A
paginate page limit xs = take limit (drop ((page - 1) * limit) xs)

-- GET /v1/ledger/:accountId
unfoldable pub list_entries : ℕ → ListQuery → List LedgerEntry → List LedgerEntry
unfolding select sort_newest paginate
list_entries account q es = paginate q.page q.limit (sort_newest (select (matches account q) es))

abbrev pub list_parsed :
    Option ℕ → Option ListQuery → Exec LedgerWorld (Response (List LedgerEntry))
list_parsed (some account) (some q) =
    query (λ w. (ok (success 200 (list_entries account q w.entries)), w))
list_parsed _ _ = pure (failure 400 validation_error)

-- GET /v1/ledger/:accountId, with its schemas; what MongoDB's driver throws is not caught.
unfoldable pub list_ledger :
    Option ℕ → RawListQuery → Exec LedgerWorld (Response (List LedgerEntry))
unfolding list_entries list_query_schema
list_ledger account raw = list_parsed account (list_query_schema raw)
