-- ===== src/Events.antt =====
-- The names and the deterministic ids of shared/types/src/events.ts. SHA-1 is a parameter: it takes
-- a text to its hexadecimal digits.
use cn_banking_transaction_s.Base.{
  ℕ, zero, suc, ◌+◌, ◌-◌, ◌/◌, ◌%◌, String, List, [], ◌∷◌, ◌++◌, map, take, drop, ltb,
  if◌then◌else◌,
}
use cn_banking_transaction_s.Types.{
  Topic, account_created, transfer_initiated, transfer_completed, transfer_failed_topic,
  fraud_alert,
}
use Prim.Native.Char.{code}

-- The code points of a text.
abbrev pub codes : String → List ℕ
codes String.[] = []
codes (String.◌∷◌ c s) = code c ∷ codes s

-- `KafkaTopics`
abbrev pub topic_name : Topic → String
topic_name account_created = "bank.account.created"
topic_name transfer_initiated = "bank.transfer.initiated"
topic_name transfer_completed = "bank.transfer.completed"
topic_name transfer_failed_topic = "bank.transfer.failed"
topic_name fraud_alert = "bank.fraud.alert"

-- bytes[i] = f(bytes[i])
abbrev pub change_at : (ℕ → ℕ) → ℕ → List ℕ → List ℕ
change_at f i [] = []
change_at f zero (d ∷ ds) = f d ∷ ds
change_at f (suc i) (d ∷ ds) = d ∷ change_at f i ds

-- The version and the variant: bytes[12] = '5', and the low two bits of bytes[16] under 8.
unfoldable pub mark_uuid : List ℕ → List ℕ
mark_uuid digits = change_at (λ d. d % 4 + 8) 16 (change_at (λ d. 5) 12 digits)

-- A digit as a lower-case hexadecimal character.
abbrev pub hex_char : ℕ → ℕ
hex_char d = if ltb d 10 then b'0' + d else b'a' + (d - 10)

abbrev pub slice : ℕ → ℕ → List ℕ → List ℕ
slice from count digits = map hex_char (take count (drop from digits))

-- The five groups, joined by dashes.
unfoldable pub uuid_text : List ℕ → List ℕ
uuid_text digits =
    slice 0 8 digits
    ++ (b'-'
        ∷ (slice 8 4 digits
            ++ (b'-'
                ∷ (slice 12 4 digits
                    ++ (b'-' ∷ (slice 16 4 digits ++ (b'-' ∷ slice 20 12 digits)))))))

-- `createDeterministicUuid`
unfoldable pub create_deterministic_uuid : (List ℕ → List ℕ) → List ℕ → List ℕ
unfolding uuid_text mark_uuid
create_deterministic_uuid sha1 input = uuid_text (mark_uuid (take 32 (sha1 input)))

-- A number as decimal text: `${partition}`. The fuel is the number itself, which has fewer digits.
abbrev pub decimal_from : ℕ → ℕ → List ℕ → List ℕ
decimal_from zero n acc = acc
decimal_from (suc fuel) n acc =
    let digit : ℕ = b'0' + n % 10 in
    let rest = decimal_from fuel (n / 10) (digit ∷ acc) in if ltb n 10 then digit ∷ acc else rest

unfoldable pub decimal : ℕ → List ℕ
decimal n = decimal_from (n + 1) n []

-- `createLedgerEntryId`, of `${topic}:${partition}:${offset}:${entryType}`.
unfoldable pub create_ledger_entry_id : (List ℕ → List ℕ) → Topic → ℕ → ℕ → String → List ℕ
unfolding create_deterministic_uuid decimal
create_ledger_entry_id sha1 topic partition offset entry_type = create_deterministic_uuid sha1 (
    codes (topic_name topic)
    ++ (b':' ∷ (decimal partition ++ (b':' ∷ (decimal offset ++ (b':' ∷ codes entry_type))))))

-- The digits of a UUID, the highest first, put before `acc`.
abbrev pub hex_digits : ℕ → ℕ → List ℕ → List ℕ
hex_digits zero n acc = acc
hex_digits (suc k) n acc = hex_digits k (n / 16) ((n % 16) ∷ acc)

-- The text of a UUID.
unfoldable pub uuid_string : ℕ → List ℕ
unfolding uuid_text
uuid_string n = uuid_text (hex_digits 32 n [])
