-- ===== src/Routeros/Exchange.antt =====
-- src/server/routeros/native-client.ts, lines 123 to 167 and 212 to 221: the attributes of a
-- sentence, and the exchange of one command, driven by the chunks of bytes that arrive. Text is
-- kept as its bytes.
pub mod Chunks
pub mod Attributes
use wireguard_panel.Base.{
  ℕ, zero, suc, ◌+◌, Bool, true, false, ◌||◌, List, [], ◌∷◌, ◌++◌, map, Option, none, some, Result,
  ok, err, ◌==◌, leb, ◌&&◌, if◌then◌else◌, length, drop,
}
use wireguard_panel.Base.Text.{Text, text_eq, codes}
use wireguard_panel.Base.Decimal.{decimal, nonempty}
use wireguard_panel.Routeros.Protocol.{ProtocolError, out_of_rounds, Decoded, Word, decode_sentence}

-- An object of strings: `output[key] = value` replaces the value of a key that is there.
abbrev pub Row : Type 0
Row = List (Text × Text)

unfoldable pub put : Text → Text → Row → Row
put key value [] = (key, value) ∷ []
put key value ((k, v) ∷ row) =
    if text_eq k key then (k, value) ∷ row else (k, v) ∷ put key value row

unfoldable pub get : Text → Row → Option Text
get key [] = none
get key ((k, v) ∷ row) = if text_eq k key then some v else get key row

-- `word.slice(0, index)` and `word.slice(index + 1)` at the first `=`; with none, the whole word
-- and the empty value.
unfoldable pub split_attribute : Text → Text × Text
split_attribute [] = ([], [])
split_attribute (c ∷ s) =
    let rest = split_attribute s in if c == b'=' then ([], s) else (c ∷ rest.0, rest.1)

-- `word.startsWith("=") ? word.slice(1) : word`.
unfoldable pub strip_equals : Text → Text
strip_equals [] = []
strip_equals (c ∷ s) = if c == b'=' then s else c ∷ s

abbrev pub put_word : Word → Row → Row
put_word word row =
    let attribute = split_attribute (strip_equals word) in put attribute.0 attribute.1 row

unfoldable pub parse_from : Row → List Word → Row
parse_from output [] = output
parse_from output (word ∷ words) = parse_from (put_word word output) words

unfoldable pub parse_attributes : List Word → Row
parse_attributes words = parse_from [] words

pub data Value : Type 0 where
  text : Text → Value
  number : ℕ → Value
  flag : Bool → Value

abbrev pub print_value : Value → Text
print_value (text s) = s
print_value (number n) = decimal n
print_value (flag true) = codes "yes"
print_value (flag false) = codes "no"

-- An attribute that is `undefined` is left out.
unfoldable pub attribute_words : List (Text × Option Value) → List Word
attribute_words [] = []
attribute_words ((key, none) ∷ attributes) = attribute_words attributes
attribute_words ((key, some value) ∷ attributes) =
    (b'=' ∷ (key ++ b'=' ∷ print_value value)) ∷ attribute_words attributes

pub data ErrorCode : Type 0 where
  auth_failed timeout api_unavailable tls_error unsupported router_error : ErrorCode

-- How the promise of an exchange ends. A decoding error is thrown inside the event handler, so
-- it ends in no rejection.
pub data Outcome : Type 0 where
  resolved : Outcome
  rejected : ErrorCode → Text → Outcome
  thrown : ProtocolError → Outcome

pub record Session : Type 0 where
  pub buffer : List ℕ
  pub records : List Row
  pub outcome : Option Outcome

-- `/…/i` on ASCII letters, and the search for a text.
abbrev pub lower : ℕ → ℕ
lower c = if leb b'A' c && leb c b'Z' then c + 32 else c

unfoldable pub starts_with : Text → Text → Bool
starts_with [] s = true
starts_with (p ∷ ps) [] = false
starts_with (p ∷ ps) (c ∷ s) = p == c && starts_with ps s

unfoldable pub contains_text : Text → Text → Bool
contains_text pattern [] = starts_with pattern []
contains_text pattern (c ∷ s) = starts_with pattern (c ∷ s) || contains_text pattern s

unfoldable pub trap_code : Text → ErrorCode
trap_code message =
    let folded = map lower message in
    if contains_text (codes "invalid user") folded || contains_text (codes "not logged in") folded
    then auth_failed
    else router_error

-- `row.message || "…"`.
unfoldable pub trap_message : Option Text → Text
trap_message none = codes "RouterOS rejected the command."
trap_message (some []) = codes "RouterOS rejected the command."
trap_message (some (c ∷ s)) = c ∷ s

abbrev pub is_empty_row : Row → Bool
is_empty_row [] = true
is_empty_row (a ∷ row) = false

abbrev pub reject : Row → Outcome
reject row =
    let message = trap_message (get (codes "message") row) in rejected (trap_code message) message

-- Lines 141 to 153 on one sentence: the records, and the outcome if the exchange is over.
unfoldable pub on_row : List Row → Word → Row → List Row × Option Outcome
on_row records kind row =
    if text_eq kind (codes "!re")
    then (records ++ row ∷ [], none)
    else if text_eq kind (codes "!trap") || text_eq kind (codes "!fatal")
    then (records, some (reject row))
    else if text_eq kind (codes "!done")
    then ((if is_empty_row row then records else records ++ row ∷ []), some resolved)
    else (records, none)

-- A sentence with no words has no kind.
unfoldable pub on_sentence : List Row → List Word → List Row × Option Outcome
on_sentence records [] = (records, none)
on_sentence records (kind ∷ attributes) = on_row records kind (parse_attributes attributes)

-- After a sentence: the next round of the loop `next`, or the end.
unfoldable pub go_on : (List Row → List ℕ → Session) → List ℕ → List Row × Option Outcome → Session
go_on next rest (records, none) = next records rest
go_on next rest (records, some o) = record { buffer = rest; records = records; outcome = some o }

unfoldable pub on_decoded :
    (List Row → List ℕ → Session)
    → List Row
    → List ℕ
    → Result ProtocolError (Option Decoded)
    → Session
on_decoded next records buffer (err e) = record {
  buffer = buffer;
  records = records;
  outcome = some (thrown e);
}
on_decoded next records buffer (ok none) = record {
  buffer = buffer;
  records = records;
  outcome = none;
}
on_decoded next records buffer (ok (some d)) =
    go_on next (drop d.bytes buffer) (on_sentence records d.words)

-- The loop of `onData`.
unfoldable pub drain : ℕ → List Row → List ℕ → Session
drain zero records buffer = record {
  buffer = buffer;
  records = records;
  outcome = some (thrown out_of_rounds);
}
drain (suc rounds) records buffer =
    on_decoded (drain rounds) records buffer (decode_sentence buffer)

-- `onData`: after the end of the exchange the handler is off.
unfoldable pub on_data : Session → List ℕ → Session
on_data s chunk = elim s.outcome [
  | some o ↦ s
  | none ↦ drain (suc (length (s.buffer ++ chunk))) s.records (s.buffer ++ chunk)
]

-- `finish` with an error: an exchange that ended stays as it is. An error that was thrown in the
-- handler of the data did not end it, since the timer and the handlers are still there.
abbrev settled : Outcome → Option Outcome → Option Outcome
settled o none = some o
settled o (some (thrown e)) = some o
settled o (some resolved) = some resolved
settled o (some (rejected code message)) = some (rejected code message)

-- The other two events that end an exchange.
abbrev fail_with : ErrorCode → Text → Session → Session
fail_with code message s = record s { outcome = settled (rejected code message) s.outcome }

unfoldable pub on_error : Session → Session
on_error = fail_with api_unavailable (codes "RouterOS API connection was interrupted.")

unfoldable pub on_timeout : Session → Session
on_timeout = fail_with timeout (codes "RouterOS API command timed out.")

abbrev pub start : Session
start = record { buffer = []; records = []; outcome = none }

unfoldable pub feed : Session → List (List ℕ) → Session
feed s [] = s
feed s (chunk ∷ chunks) = feed (on_data s chunk) chunks
