-- ===== src/LedgerService/Queries/Pages.antt =====
-- The pages of a list of entries: GET /v1/ledger/:accountId.
use cn_banking_transaction_s.Base.{
  &&-true, ℕ, zero, suc, ◌+◌, ◌-◌, ◌*◌, ◌≤◌, ◌≡◌, refl, true, ◌==◌, Option, none, some, List, [],
  ◌∷◌, ◌++◌, arith, take, drop, length, length-take_le, Bool-cases, inl, inr, All, All-take,
  All-drop, ap, leb, sym,
}
use cn_banking_transaction_s.LedgerService.{LedgerEntry}
use cn_banking_transaction_s.LedgerService.Queries.{
  ListQuery, at_least, at_most, matches, select, sort_newest, insert_newest, paginate, list_entries,
}

-- The first `n` pages, one behind the other.
abbrev pub pages {ℓ} : {A : Type ℓ} → ℕ → ℕ → List A → List A
pages zero limit xs = []
pages (suc n) limit xs = pages n limit xs ++ paginate (suc n) limit xs

take-split {ℓ} :
    {A : Type ℓ} (k m n : ℕ) (xs : List A) → k ≡ m + n → take k xs ≡ take m xs ++ take n (drop m xs)
take-split k zero n xs h = ap (λ i. take i xs) (omega (arith, h))
take-split zero (suc m) n xs h = absurd (omega (arith, h))
take-split (suc k) (suc m) zero [] h = refl
take-split (suc k) (suc m) (suc n) [] h = refl
take-split (suc k) (suc m) n (x ∷ xs) h = ap (λ ys. x ∷ ys) (take-split k m n xs (omega (arith, h)))

-- The first `n` pages, one behind the other, are the first `n * limit` elements: no element is
-- left out or repeated between two pages.
pub pages-take {ℓ} :
    {A : Type ℓ} (n limit : ℕ) (xs : List A) → pages n limit xs ≡ take (n * limit) xs
unfolding paginate
pages-take zero limit xs = let none_yet : zero * limit ≡ zero = omega arith in rw none_yet refl
pages-take (suc n) limit xs =
    let before : suc n - 1 ≡ n = omega arith in
    let both : suc n * limit ≡ n * limit + limit = ground arith in
    rw (pages-take n limit xs, before) (sym (take-split (suc n * limit) (n * limit) limit xs both))

-- The bounds of a query, each where it is given.
abbrev pub NotBefore : Option ℕ → ℕ → Type 0
NotBefore none t = Unit
NotBefore (some from) t = from ≤ t

abbrev pub NotAfter : Option ℕ → ℕ → Type 0
NotAfter none t = Unit
NotAfter (some to) t = t ≤ to

-- The entry is one of the account, and was made within the bounds.
abbrev pub Asked : ℕ → ListQuery → LedgerEntry → Type 0
Asked account q e =
    (e.account_id ≡ account) × NotBefore q.from e.created_at × NotAfter q.to e.created_at

abbrev pub AllMatch : ℕ → ListQuery → List LedgerEntry → Type 0
AllMatch account q es = All (λ e. Asked account q e) es

pub at_least-NotBefore : (o : Option ℕ) (t : ℕ) → at_least o t ≡ true → NotBefore o t
at_least-NotBefore none t h = tt
at_least-NotBefore (some from) t h = ground arith

pub at_most-NotAfter : (o : Option ℕ) (t : ℕ) → at_most o t ≡ true → NotAfter o t
at_most-NotAfter none t h = tt
at_most-NotAfter (some to) t h = ground arith

matches-Asked :
    (account : ℕ) (q : ListQuery) (e : LedgerEntry) → matches account q e ≡ true → Asked account q e
matches-Asked account q e h =
    let (same, times) = &&-true (account == e.account_id) _ h in
    let (from, to) = &&-true (at_least q.from e.created_at) _ times in
    (
      ground arith,
      at_least-NotBefore q.from e.created_at from,
      at_most-NotAfter q.to e.created_at to,
    )

module _ (account : ℕ) (q : ListQuery) where
  select-AllMatch : (es : List LedgerEntry) → AllMatch account q (select (matches account q) es)
  unfolding select
  select-AllMatch [] = tt
  select-AllMatch (e ∷ es) = elim (Bool-cases (matches account q e)) [
    | inl fits ↦ rw fits (matches-Asked account q e fits, select-AllMatch es)
    | inr other ↦ rw other (select-AllMatch es)
  ]

  insert_newest-AllMatch :
      (e : LedgerEntry) (es : List LedgerEntry)
      → Asked account q e
      → AllMatch account q es
      → AllMatch account q (insert_newest e es)
  insert_newest-AllMatch e [] m h = (m, tt)
  insert_newest-AllMatch e (x ∷ xs) m h = elim (Bool-cases (leb x.created_at e.created_at)) [
    | inl before ↦ rw before (m, h)
    | inr behind ↦ rw behind (h.0, insert_newest-AllMatch e xs m h.1)
  ]

  sort_newest-AllMatch :
      (es : List LedgerEntry) → AllMatch account q es → AllMatch account q (sort_newest es)
  unfolding sort_newest
  sort_newest-AllMatch [] h = tt
  sort_newest-AllMatch (e ∷ es) h =
      insert_newest-AllMatch e (sort_newest es) h.0 (sort_newest-AllMatch es h.1)

-- Each entry is no newer than the one before it, and the first no newer than `t`.
abbrev pub UpTo : ℕ → List LedgerEntry → Type 0
UpTo t [] = Unit
UpTo t (e ∷ es) = (e.created_at ≤ t) × UpTo e.created_at es

abbrev pub NewestFirst : List LedgerEntry → Type 0
NewestFirst [] = Unit
NewestFirst (e ∷ es) = UpTo e.created_at es

UpTo-NewestFirst : (t : ℕ) (es : List LedgerEntry) → UpTo t es → NewestFirst es
UpTo-NewestFirst t [] h = tt
UpTo-NewestFirst t (e ∷ es) h = h.1

insert_newest-UpTo :
    (t : ℕ) (e : LedgerEntry) (es : List LedgerEntry)
    → e.created_at ≤ t
    → UpTo t es
    → UpTo t (insert_newest e es)
insert_newest-UpTo t e [] m h = (m, tt)
insert_newest-UpTo t e (x ∷ xs) m h = elim (Bool-cases (leb x.created_at e.created_at)) [
  | inl before ↦ rw before (m, (ground arith, h.1))
  | inr behind ↦ rw behind (h.0, insert_newest-UpTo x.created_at e xs (ground arith) h.1)
]

insert_newest-NewestFirst :
    (e : LedgerEntry) (es : List LedgerEntry) → NewestFirst es → NewestFirst (insert_newest e es)
insert_newest-NewestFirst e [] h = tt
insert_newest-NewestFirst e (x ∷ xs) h = elim (Bool-cases (leb x.created_at e.created_at)) [
  | inl before ↦ rw before (ground arith, h)
  | inr behind ↦ rw behind (insert_newest-UpTo x.created_at e xs (ground arith) h)
]

sort_newest-NewestFirst : (es : List LedgerEntry) → NewestFirst (sort_newest es)
unfolding sort_newest
sort_newest-NewestFirst [] = tt
sort_newest-NewestFirst (e ∷ es) =
    insert_newest-NewestFirst e (sort_newest es) (sort_newest-NewestFirst es)

take-UpTo : (n t : ℕ) (es : List LedgerEntry) → UpTo t es → UpTo t (take n es)
take-UpTo zero t es h = tt
take-UpTo (suc n) t [] h = tt
take-UpTo (suc n) t (e ∷ es) h = (h.0, take-UpTo n e.created_at es h.1)

take-NewestFirst : (n : ℕ) (es : List LedgerEntry) → NewestFirst es → NewestFirst (take n es)
take-NewestFirst zero es h = tt
take-NewestFirst (suc n) [] h = tt
take-NewestFirst (suc n) (e ∷ es) h = take-UpTo n e.created_at es h

drop-NewestFirst : (n : ℕ) (es : List LedgerEntry) → NewestFirst es → NewestFirst (drop n es)
drop-NewestFirst zero es h = h
drop-NewestFirst (suc n) [] h = tt
drop-NewestFirst (suc n) (e ∷ es) h = drop-NewestFirst n es (UpTo-NewestFirst e.created_at es h)

-- The list that GET /v1/ledger/:accountId answers a valid query with has at most `limit` entries.
-- The account of each is the one that is asked for, each was made no earlier than `from` and no
-- later than `to`, where they are given, and the newest comes first.
pub list_entries_sound :
    (account : ℕ) (q : ListQuery) (es : List LedgerEntry)
    → (length (list_entries account q es) ≤ q.limit)
      × AllMatch account q (list_entries account q es)
      × NewestFirst (list_entries account q es)
unfolding list_entries paginate
list_entries_sound account q es = (
  length-take_le q.limit _,
  All-take (λ e. Asked account q e) q.limit _
      (All-drop (λ e. Asked account q e) ((q.page - 1) * q.limit) _
        (sort_newest-AllMatch account q _ (select-AllMatch account q es))),
  take-NewestFirst q.limit _ (
      drop-NewestFirst ((q.page - 1) * q.limit) _
        (sort_newest-NewestFirst (select (matches account q) es))),
)
