-- ===== src/Bandwidth/Rates.antt =====
-- src/server/bandwidth.ts, lines 39 to 41 and 93 to 114, and src/server/drift-service.ts, lines 140
-- and 141: rates, times and targets as RouterOS writes them.
use wireguard_panel.Base.{
  ℕ, ◌+◌, ◌*◌, ◌/◌, ◌^◌, Bool, true, false, ◌&&◌, ◌||◌, List, [], ◌∷◌, ◌++◌, map, Option, none,
  some, ltb, leb, ◌==◌, if◌then◌else◌, length, keep,
}
use wireguard_panel.Base.Int.{ℤ, pos, negsuc}
use wireguard_panel.Base.Text.{Text, codes, trim, split, join}
use wireguard_panel.Base.Decimal.{is_digit, value_from, decimal, nonempty}

-- `s.toLowerCase()`, exact on ASCII. Of the other characters two have a lower case that begins with
-- an ASCII letter; the others are kept, which is enough where they are replaced afterwards.
abbrev pub lower_code : ℕ → Text
lower_code c =
    if leb b'A' c && leb c b'Z'
    then (c + 32) ∷ []
    else if c == 0x212a
    then b'k' ∷ []
    else if c == 0x130
    then b'i' ∷ 0x307 ∷ []
    else c ∷ []

unfoldable pub to_lower_case : Text → Text
to_lower_case [] = []
to_lower_case (c ∷ s) = lower_code c ++ to_lower_case s

-- `value.split(/[;,]/)`: a semicolon splits as a comma does.
abbrev pub comma_code : ℕ → ℕ
comma_code c = if c == b';' then b',' else c

abbrev pub split_targets : Text → List Text
split_targets value = split b',' (map comma_code value)

-- `a <= b` on strings: the order of their code units, which `sort()` goes by.
unfoldable pub text_le : Text → Text → Bool
text_le [] t = true
text_le (a ∷ s) [] = false
text_le (a ∷ s) (b ∷ t) = ltb a b || (a == b && text_le s t)

unfoldable pub insert_text : Text → List Text → List Text
insert_text s [] = s ∷ []
insert_text s (t ∷ ts) = if text_le s t then s ∷ t ∷ ts else t ∷ insert_text s ts

unfoldable pub sort_texts : List Text → List Text
unfolding text_le insert_text
sort_texts [] = []
sort_texts (t ∷ ts) = insert_text t (sort_texts ts)

-- `parts.filter(Boolean)`.
abbrev pub target_parts : Text → List Text
target_parts value = keep nonempty (map trim (split_targets value))

unfoldable pub normalize_queue_target : Text → Text
unfolding sort_texts
normalize_queue_target value = join (b',' ∷ []) (sort_texts (target_parts value))

-- The digits at the beginning, and what follows them.
unfoldable pub span_digits : Text → Text × Text
span_digits [] = ([], [])
span_digits (c ∷ s) =
    let rest = span_digits s in if is_digit c then (c ∷ rest.0, rest.1) else ([], c ∷ s)

-- `(?:\.\d+)?`, and what follows it.
abbrev pub fraction_of : Text → Text × Text
fraction_of [] = ([], [])
fraction_of (c ∷ s) =
    let digits = span_digits s in if c == b'.' && nonempty digits.0 then digits else ([], c ∷ s)

-- `([kmgt]?)$` and `factors`.
abbrev pub unit_factor : ℕ → Option ℕ
unit_factor c =
    if c == b'k'
    then some 1000
    else if c == b'm'
    then some 1000000
    else if c == b'g'
    then some 1000000000
    else if c == b't'
    then some 1000000000000
    else none

abbrev pub factor_of : Text → Option ℕ
factor_of [] = some 1
factor_of (c ∷ []) = unit_factor c
factor_of (c ∷ d ∷ s) = none

-- `Math.round(Number(digits) * factor)` on whole and fractional digits, as exact arithmetic does it.
-- Numbers of the source are doubles, which agree as long as the product is below 2^53 and no tie.
unfoldable pub rounded_rate : Text → Text → ℕ → ℕ
rounded_rate whole fraction factor =
    let scale = 10 ^ length fraction in
    ((value_from 0 whole * scale + value_from 0 fraction) * factor * 2 + scale) / (scale * 2)

unfoldable pub scaled : Text → Text × Text → Option ℕ
scaled whole (fraction, unit) = elim (factor_of unit) [
  | none ↦ none
  | some factor ↦ some (rounded_rate whole fraction factor)
]

-- `raw.match(/^(\d+(?:\.\d+)?)([kmgt]?)$/)`, and the number that it stands for.
unfoldable pub match_rate : Text → Option ℕ
unfolding span_digits rounded_rate scaled value_from
match_rate raw =
    let digits = span_digits raw in
    if nonempty digits.0 then scaled digits.0 (fraction_of digits.1) else none

unfoldable pub normalize_ros_rate : Text → Text
unfolding match_rate to_lower_case trim
normalize_ros_rate value =
    let raw = to_lower_case (trim value) in
    elim (match_rate raw) [ none ↦ raw | some rate ↦ decimal rate ]

-- `const [upload = fallback, download = fallback] = parts`.
abbrev pub first_two : Text → List Text → Text × Text
first_two fallback [] = (fallback, fallback)
first_two fallback (a ∷ []) = (a, fallback)
first_two fallback (a ∷ b ∷ rest) = (a, b)

abbrev pub slashed : Text → Text → Text
slashed upload download = upload ++ b'/' ∷ download

unfoldable pub normalize_rate_pair : Text → Text
unfolding normalize_ros_rate
normalize_rate_pair value =
    let pair = first_two (codes "0") (split b'/' (trim value)) in
    slashed (normalize_ros_rate pair.0) (normalize_ros_rate pair.1)

unfoldable pub normalize_time_pair : Text → Text
unfolding to_lower_case
normalize_time_pair value =
    let pair = first_two (codes "0s") (split b'/' (trim value)) in
    slashed (to_lower_case (trim pair.0)) (to_lower_case (trim pair.1))

-- `value && value > 0n ? value.toString() : "0"`.
unfoldable pub ros_rate : Option ℤ → Text
ros_rate none = codes "0"
ros_rate (some (negsuc n)) = codes "0"
ros_rate (some (pos n)) = decimal n

-- `parseRate` and `parseRatePair` of src/server/drift-service.ts, which trim before they lower.
unfoldable pub parse_rate : Text → Option ℕ
unfolding match_rate to_lower_case trim
parse_rate value = match_rate (to_lower_case (trim value))

abbrev pub parse_second : List Text → Option ℕ
parse_second [] = none
parse_second (up ∷ []) = none
parse_second (up ∷ down ∷ rest) = parse_rate down

abbrev pub parse_first : List Text → Option ℕ
parse_first [] = none
parse_first (up ∷ rest) = parse_rate up

unfoldable pub parse_rate_pair : Text → Option ℕ × Option ℕ
unfolding parse_rate
parse_rate_pair value = let parts = split b'/' value in (parse_first parts, parse_second parts)
