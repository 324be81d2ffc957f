-- ===== src/LedgerService/Redelivery.antt =====
-- services/ledger-service/src/consumer.ts: what a completed transfer and its redelivery do to the
-- ledger.
use cn_banking_transaction_s.Base.{
  ℕ, ◌≡◌, refl, true, false, ◌||◌, String, Option, none, some, List, [], ◌∷◌, ◌++◌, arith,
  Bool-cases, inl, inr, ◌∙◌, ap, sym, subst,
}
use cn_banking_transaction_s.Events.{create_ledger_entry_id}
use cn_banking_transaction_s.Effect.{Script, delivered, lost, reply_lost, Result, ok, err}
use cn_banking_transaction_s.Types.{Topic, transfer_completed, TransferCompletedEvent}
use cn_banking_transaction_s.LedgerService.{
  LedgerEntry, debit_entry, credit_entry, LedgerWorld, Position, Payload, same_text, has_entry,
  upsert, upsert_entry, join, upsert_entries, build_entries, completed_facts, entry_completed,
  process_completed, process_ledger_event, process_topic,
}

same_text_refl : (s : List ℕ) → same_text s s ≡ true
same_text_refl [] = refl
same_text_refl (a ∷ s) = ground (arith, same_text_refl s)

has_entry-append :
    (id : List ℕ) (es es' : List LedgerEntry)
    → has_entry id (es ++ es') ≡ has_entry id es || has_entry id es'
unfolding has_entry
has_entry-append id [] es' = refl
has_entry-append id (e ∷ es) es' = ground (arith, has_entry-append id es es')

has_entry-upsert_self :
    (e : LedgerEntry) (es : List LedgerEntry) → has_entry e.entry_id (upsert e es) ≡ true
unfolding upsert
has_entry-upsert_self e es = elim (Bool-cases (has_entry e.entry_id es)) [
  | inl old ↦ rw old old
  | inr new ↦
      rw (new, has_entry-append, new) (unfold has_entry in rw (same_text_refl e.entry_id) refl)
]

has_entry-upsert_old :
    (id : List ℕ) (e : LedgerEntry) (es : List LedgerEntry)
    → has_entry id es ≡ true
    → has_entry id (upsert e es) ≡ true
unfolding upsert
has_entry-upsert_old id e es h = elim (Bool-cases (has_entry e.entry_id es)) [
  | inl old ↦ rw old h
  | inr new ↦ rw (new, has_entry-append, h) refl
]

upsert_present :
    (e : LedgerEntry) (es : List LedgerEntry) → has_entry e.entry_id es ≡ true → upsert e es ≡ es
unfolding upsert
upsert_present e es h = rw h refl

-- Every entry of the list is in the collection.
abbrev pub Recorded : List LedgerEntry → List LedgerEntry → Type 0
Recorded [] es = Unit
Recorded (e ∷ rest) es = (has_entry e.entry_id es ≡ true) × Recorded rest es

entry_kept :
    (id : List ℕ) (e : LedgerEntry) (f : Script) (w : LedgerWorld)
    → has_entry id w.entries ≡ true
    → has_entry id (upsert_entry e f w).2.entries ≡ true
unfolding upsert_entry
entry_kept id e [] w h = has_entry-upsert_old id e w.entries h
entry_kept id e (delivered ∷ f) w h = has_entry-upsert_old id e w.entries h
entry_kept id e (lost ∷ f) w h = h
entry_kept id e (reply_lost ∷ f) w h = has_entry-upsert_old id e w.entries h

entry_written :
    (e : LedgerEntry) (f : Script) (w : LedgerWorld)
    → (upsert_entry e f w).0 ≡ ok tt
    → has_entry e.entry_id (upsert_entry e f w).2.entries ≡ true
unfolding upsert_entry
entry_written e [] w h = has_entry-upsert_self e w.entries
entry_written e (delivered ∷ f) w h = has_entry-upsert_self e w.entries
entry_written e (lost ∷ f) w h = cc
entry_written e (reply_lost ∷ f) w h = cc

entries_kept :
    (id : List ℕ) (es : List LedgerEntry) (f : Script) (w : LedgerWorld)
    → has_entry id w.entries ≡ true
    → has_entry id (upsert_entries es f w).2.entries ≡ true
unfolding upsert_entries
entries_kept id [] f w h = h
entries_kept id (e ∷ es) f w h =
    let (r, f', w') = upsert_entry e f w in entries_kept id es f' w' (entry_kept id e f w h)

join-ok : (r r' : Result (Unit {0})) → join r r' ≡ ok tt → (r ≡ ok tt) × (r' ≡ ok tt)
join-ok (ok a) r' h = (refl, h)
join-ok (err e) r' h = cc

entries_written :
    (es : List LedgerEntry) (f : Script) (w : LedgerWorld)
    → (upsert_entries es f w).0 ≡ ok tt
    → Recorded es (upsert_entries es f w).2.entries
unfolding upsert_entries
entries_written [] f w h = tt
entries_written (e ∷ es) f w h =
    let (r, f', w') = upsert_entry e f w in
    let (r', f'', w'') = upsert_entries es f' w' in
    let both = join-ok r r' h in
    (entries_kept e.entry_id es f' w' (entry_written e f w both.0), entries_written es f' w' both.1)

entry_again :
    (e : LedgerEntry) (f : Script) (w : LedgerWorld)
    → has_entry e.entry_id w.entries ≡ true
    → (upsert_entry e f w).2.entries ≡ w.entries
unfolding upsert_entry
entry_again e [] w h = upsert_present e w.entries h
entry_again e (delivered ∷ f) w h = upsert_present e w.entries h
entry_again e (lost ∷ f) w h = refl
entry_again e (reply_lost ∷ f) w h = upsert_present e w.entries h

entries_again :
    (es : List LedgerEntry) (f : Script) (w : LedgerWorld)
    → Recorded es w.entries
    → (upsert_entries es f w).2.entries ≡ w.entries
unfolding upsert_entries
entries_again [] f w h = refl
entries_again (e ∷ es) f w h =
    let (r, f', w') = upsert_entry e f w in
    let same = entry_again e f w h.0 in entries_again es f' w' (rw same (h.1)) ∙ same

event_again :
    (sha1 : List ℕ → List ℕ) (at : Position) (e : Option TransferCompletedEvent) (f f' : Script)
    (w : LedgerWorld)
    → (process_completed sha1 at e f w).0 ≡ ok tt
    → (process_completed sha1 at e f' (process_completed sha1 at e f w).2).2.entries
      ≡ (process_completed sha1 at e f w).2.entries
unfolding process_completed
event_again sha1 at none f f' w h = cc
event_again sha1 at (some e) f f' w h =
    let es = build_entries sha1 at (completed_facts e) entry_completed e.completed_at in
    entries_again es f' (upsert_entries es f w).2 (entries_written es f w h)

topic_again :
    (sha1 : List ℕ → List ℕ) (at : Position) (t : Topic) (p : Payload) (f f' : Script)
    (w : LedgerWorld)
    → t ≡ transfer_completed
    → (process_topic sha1 at t p f w).0 ≡ ok tt
    → (process_topic sha1 at t p f' (process_topic sha1 at t p f w).2).2.entries
      ≡ (process_topic sha1 at t p f w).2.entries
unfolding process_topic
topic_again sha1 at transfer_completed p f f' w e h = event_again sha1 at p.as_completed f f' w h
topic_again sha1 at _ p f f' w e h = cc

-- A message of bank.transfer.completed that was processed without an error may come again, from
-- the same partition and offset: it leaves the ledger as it is, whatever calls fail the second time.
pub completed_again :
    (sha1 : List ℕ → List ℕ) (at : Position) (p : Payload) (f f' : Script) (w : LedgerWorld)
    → at.topic ≡ transfer_completed
    → (process_ledger_event sha1 at (some p) f w).0 ≡ ok tt
    → (process_ledger_event sha1 at
        (some p)
        f'
        (process_ledger_event sha1 at (some p) f w).2).2.entries
      ≡ (process_ledger_event sha1 at (some p) f w).2.entries
unfolding process_ledger_event
completed_again sha1 at p f f' w e h = topic_again sha1 at at.topic p f f' w e h

-- The two sides of a completed transfer, as they are expected in the ledger.
abbrev pub debit_line : (List ℕ → List ℕ) → Position → TransferCompletedEvent → LedgerEntry
debit_line sha1 at e = record {
  entry_id = create_ledger_entry_id sha1 at.topic at.partition at.offset "debit";
  transfer_id = e.transfer_id;
  account_id = e.from_account_id;
  from_account_id = e.from_account_id;
  to_account_id = e.to_account_id;
  amount = e.amount;
  entry_type = debit_entry;
  status = entry_completed;
  source_event = e.base.event_type;
  created_at = e.completed_at;
}

abbrev pub credit_line : (List ℕ → List ℕ) → Position → TransferCompletedEvent → LedgerEntry
credit_line sha1 at e = record {
  entry_id = create_ledger_entry_id sha1 at.topic at.partition at.offset "credit";
  transfer_id = e.transfer_id;
  account_id = e.to_account_id;
  from_account_id = e.from_account_id;
  to_account_id = e.to_account_id;
  amount = e.amount;
  entry_type = credit_entry;
  status = entry_completed;
  source_event = e.base.event_type;
  created_at = e.completed_at;
}

-- The payload is a valid event, and exactly its debit and its credit were added to the entries.
abbrev pub BothAdded :
    (List ℕ → List ℕ) → Position → Payload → List LedgerEntry → List LedgerEntry → Type 0
BothAdded sha1 at p es es' =
    (e : TransferCompletedEvent) × (p.as_completed ≡ some e)
    × (es' ≡ es ++ debit_line sha1 at e ∷ credit_line sha1 at e ∷ [])

entry_added :
    (e : LedgerEntry) (f : Script) (w : LedgerWorld)
    → has_entry e.entry_id w.entries ≡ false
    → (upsert_entry e f w).0 ≡ ok tt
    → (upsert_entry e f w).2.entries ≡ w.entries ++ e ∷ []
unfolding upsert_entry upsert
entry_added e [] w new h = rw new refl
entry_added e (delivered ∷ f) w new h = rw new refl
entry_added e (lost ∷ f) w new h = cc
entry_added e (reply_lost ∷ f) w new h = cc

still_new :
    (d c : LedgerEntry) (es : List LedgerEntry)
    → has_entry c.entry_id es ≡ false
    → same_text c.entry_id d.entry_id ≡ false
    → has_entry c.entry_id (es ++ d ∷ []) ≡ false
still_new d c es new other = rw (has_entry-append, new) (unfold has_entry in rw other refl)

behind : (es : List LedgerEntry) (d c : LedgerEntry) → (es ++ d ∷ []) ++ c ∷ [] ≡ es ++ d ∷ c ∷ []
behind [] d c = refl
behind (e ∷ es) d c = ap (λ xs. e ∷ xs) (behind es d c)

pair_added :
    (d c : LedgerEntry) (f : Script) (w : LedgerWorld)
    → has_entry d.entry_id w.entries ≡ false
    → has_entry c.entry_id w.entries ≡ false
    → same_text c.entry_id d.entry_id ≡ false
    → (upsert_entries (d ∷ c ∷ []) f w).0 ≡ ok tt
    → (upsert_entries (d ∷ c ∷ []) f w).2.entries ≡ w.entries ++ d ∷ c ∷ []
unfolding upsert_entries
pair_added d c f w new_d new_c other h =
    let (r, f', w') = upsert_entry d f w in
    let (r', f'', w'') = upsert_entry c f' w' in
    let both = join-ok r (join r' (ok tt)) h in
    let one : w'.entries ≡ w.entries ++ d ∷ [] = entry_added d f w new_d both.0 in
    let still : has_entry c.entry_id w'.entries ≡ false =
      subst (λ es. has_entry c.entry_id es ≡ false) (sym one)
        (still_new d c w.entries new_c other) in
    let two : w''.entries ≡ w'.entries ++ c ∷ [] =
      entry_added c f' w' still (join-ok r' (ok tt) both.1).0 in
    two ∙ ap (λ es. es ++ c ∷ []) one ∙ behind w.entries d c

module _ (sha1 : List ℕ → List ℕ) (at : Position) where
  abbrev id_of : String → List ℕ
  id_of side = create_ledger_entry_id sha1 at.topic at.partition at.offset side

  event_added :
      (p : Payload) (o : Option TransferCompletedEvent) (f : Script) (w : LedgerWorld)
      → p.as_completed ≡ o
      → has_entry (id_of "debit") w.entries ≡ false
      → has_entry (id_of "credit") w.entries ≡ false
      → same_text (id_of "credit") (id_of "debit") ≡ false
      → (process_completed sha1 at o f w).0 ≡ ok tt
      → BothAdded sha1 at p w.entries (process_completed sha1 at o f w).2.entries
  unfolding process_completed build_entries
  event_added p none f w i new_d new_c other h = cc
  event_added p (some e) f w i new_d new_c other h =
      (e, i, pair_added (debit_line sha1 at e) (credit_line sha1 at e) f w new_d new_c other h)

  topic_added :
      (t : Topic) (p : Payload) (f : Script) (w : LedgerWorld)
      → t ≡ transfer_completed
      → has_entry (id_of "debit") w.entries ≡ false
      → has_entry (id_of "credit") w.entries ≡ false
      → same_text (id_of "credit") (id_of "debit") ≡ false
      → (process_topic sha1 at t p f w).0 ≡ ok tt
      → BothAdded sha1 at p w.entries (process_topic sha1 at t p f w).2.entries
  unfolding process_topic
  topic_added transfer_completed p f w e new_d new_c other h =
      event_added p p.as_completed f w refl new_d new_c other h
  topic_added _ p f w e new_d new_c other h = cc

-- A message of bank.transfer.completed whose two entry ids differ and are not in the ledger, and
-- that is processed without an error, was a valid event, and has added exactly two entries to the
-- ledger: the debit of the source account and the credit of the destination account, each of the
-- amount of the event, completed, under the id of its side and of the message's position.
pub completed_recorded :
    (sha1 : List ℕ → List ℕ) (at : Position) (p : Payload) (f : Script) (w : LedgerWorld)
    → at.topic ≡ transfer_completed
    → has_entry (create_ledger_entry_id sha1 at.topic at.partition at.offset "debit") w.entries
      ≡ false
    → has_entry (create_ledger_entry_id sha1 at.topic at.partition at.offset "credit") w.entries
      ≡ false
    → same_text
        (create_ledger_entry_id sha1 at.topic at.partition at.offset "credit")
        (create_ledger_entry_id sha1 at.topic at.partition at.offset "debit")
      ≡ false
    → (process_ledger_event sha1 at (some p) f w).0 ≡ ok tt
    → BothAdded sha1 at p w.entries (process_ledger_event sha1 at (some p) f w).2.entries
unfolding process_ledger_event
completed_recorded sha1 at p f w e new_d new_c other h =
    topic_added sha1 at at.topic p f w e new_d new_c other h
