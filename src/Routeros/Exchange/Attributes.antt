-- ===== src/Routeros/Exchange/Attributes.antt =====
-- src/server/routeros/native-client.ts, lines 162 to 166 and 212 to 221: the attributes of a
-- command, as a reader of its words finds them.
use wireguard_panel.Base.{
  ◌≡◌, refl, ap, ◌∙◌, List, [], ◌∷◌, ◌++◌, Option, none, some, arith, if◌then◌else◌, All,
}
use wireguard_panel.Base.Text.{Text, Without, text_eq, text_eq_iff}
use wireguard_panel.Routeros.Exchange.{
  Row, Value, put, get, split_attribute, strip_equals, put_word, parse_from, parse_attributes,
  print_value, attribute_words,
}

split_attribute-append :
    (key value : Text) → Without b'=' key → split_attribute (key ++ b'=' ∷ value) ≡ (key, value)
unfolding split_attribute
split_attribute-append [] value h = refl
split_attribute-append (c ∷ key) value (ne, h) =
    rw (split_attribute-append key value h, split_attribute) (ground arith)

-- One value is replaced, the others stay.
pub get-put :
    (k key value : Text) (row : Row)
    → get k (put key value row) ≡ (if text_eq key k then some value else get k row)
unfolding get put
get-put k key value [] = refl
get-put k key value ((j, w) ∷ row) =
    ground (arith, text_eq_iff j key, text_eq_iff j k, text_eq_iff key k, get-put k key value row)

-- The value that an attribute list gives to a key: its last, or else what was there.
unfoldable pub last_value : List (Text × Option Value) → Text → Option Text → Option Text
last_value [] k old = old
last_value ((key, none) ∷ attributes) k old = last_value attributes k old
last_value ((key, some value) ∷ attributes) k old =
    last_value attributes k (if text_eq key k then some (print_value value) else old)

abbrev pub PlainKeys : List (Text × Option Value) → Type 0
PlainKeys = All (λ a. Without b'=' a.0)

put_attribute :
    (key value : Text) (row : Row)
    → Without b'=' key
    → put_word (b'=' ∷ (key ++ b'=' ∷ value)) row ≡ put key value row
unfolding strip_equals
put_attribute key value row h = rw (split_attribute-append key value h) refl

get-parse_from :
    (attributes : List (Text × Option Value)) (k : Text) (row : Row)
    → PlainKeys attributes
    → get k (parse_from row (attribute_words attributes)) ≡ last_value attributes k (get k row)
unfolding parse_from attribute_words last_value
get-parse_from [] k row h = refl
get-parse_from ((key, none) ∷ attributes) k row (p, h) = get-parse_from attributes k row h
get-parse_from ((key, some value) ∷ attributes) k row (p, h) =
    get-parse_from attributes k (put_word (b'=' ∷ (key ++ b'=' ∷ print_value value)) row) h
    ∙ ap (last_value attributes k) (
        ap (get k) (put_attribute key (print_value value) row p)
        ∙ get-put k key (print_value value) row)

-- The words of a command, read as the attributes of an answer are, give each key its last value,
-- and give no value to a key that has none or whose value is left out. The keys hold no equals
-- sign; the values may.
pub get-parse_attributes :
    (attributes : List (Text × Option Value)) (k : Text)
    → PlainKeys attributes
    → get k (parse_attributes (attribute_words attributes)) ≡ last_value attributes k none
unfolding parse_attributes get
get-parse_attributes attributes k h = get-parse_from attributes k [] h
