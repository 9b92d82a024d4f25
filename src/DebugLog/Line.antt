-- ===== src/DebugLog/Line.antt =====
-- `Line` of windows/runner/debug_log.cpp: the text of a record.
use ligament_apps.Common.{
  ℕ, zero, suc, ◌-◌, ◌/◌, ◌%◌, Bool, true, false, ◌&&◌, ◌||◌, Option, none, some, List, [], ◌∷◌,
  ◌++◌, leb, ◌==◌, if◌then◌else◌, not, is_some, length, drop, empty, all,
}
use ligament_apps.Common.Text.{joined, Text, codes, decimal, find_text, eq_text}
use ligament_apps.Common.Integers.{ℤ, ◌+ℤ◌, negated, is_negative, absolute, signed_decimal}
use ligament_apps.DebugLog.{
  field_char, valid_level, valid_event, valid_error_type, valid_error_code, valid_context,
}

-- What `GetTimeZoneInformation` returns.
pub data ZoneState : Type 0 where
  unknown standard daylight invalid : ZoneState

-- The clock, the zone and the identifiers of the process.
pub record Clock : Type 0 where
  pub year : ℕ
  pub month : ℕ
  pub day : ℕ
  pub hour : ℕ
  pub minute : ℕ
  pub second : ℕ
  pub milliseconds : ℕ
  pub zone_state : ZoneState
  pub bias : ℤ
  pub daylight_bias : ℤ
  pub standard_bias : ℤ
  pub pid : ℕ
  pub tid : ℕ

-- The arguments of a record; a text that is not given is empty.
pub record Fields : Type 0 where
  pub event : Text
  pub error_type : Text
  pub error_code : Text
  pub os_error : Option ℤ
  pub context : Text
  pub level : Text

abbrev pub zeros : ℕ → Text → Text
zeros zero s = s
zeros (suc n) s = b'0' ∷ zeros n s

-- `%0Nu`.
unfoldable pub padded : ℕ → ℕ → Text
unfolding decimal
padded width n = zeros (width - length (decimal n)) (decimal n)

unfoldable pub zone_offset : Clock → ℤ
zone_offset now = negated (elim now.zone_state [
  | ZoneState.daylight ↦ now.bias +ℤ now.daylight_bias
  | ZoneState.standard ↦ now.bias +ℤ now.standard_bias
  | _ ↦ now.bias
])

abbrev ends_with : Text → Text → Bool
ends_with s tail = leb (length tail) (length s) && eq_text (drop (length s - length tail) s) tail

abbrev contains : Text → Text → Bool
contains s needle = is_some (find_text needle s)

abbrev pub is_failure : Fields → Bool
is_failure f =
    not (empty f.error_type)
    || not (empty f.error_code)
    || is_some f.os_error
    || ends_with f.event (codes ".failed")
    || ends_with f.event (codes ".error")

abbrev pub is_trouble : Fields → Bool
is_trouble f =
    contains f.event (codes ".blocked")
    || contains f.event (codes ".cancelled")
    || contains f.event (codes ".timeout")
    || contains f.event (codes ".retry")
    || contains f.event (codes ".dropped")
    || contains f.context (codes "result=http_error")
    || contains f.context (codes "http_status=4")
    || contains f.context (codes "http_status=5")

unfoldable pub resolved_level : Fields → Text
resolved_level f =
    if not (empty f.level || not (valid_level f.level))
    then f.level
    else if is_failure f
    then codes "ERROR"
    else if is_trouble f
    then codes "WARN"
    else codes "INFO"

-- What `snprintf` makes of the clock and the level, in parts.
abbrev pub prefix_parts : Clock → Text → List Text
prefix_parts now level =
    let offset = zone_offset now in
    padded 4 now.year
    ∷ codes "-"
    ∷ padded 2 now.month
    ∷ codes "-"
    ∷ padded 2 now.day
    ∷ codes "T"
    ∷ padded 2 now.hour
    ∷ codes ":"
    ∷ padded 2 now.minute
    ∷ codes ":"
    ∷ padded 2 now.second
    ∷ codes "."
    ∷ padded 3 now.milliseconds
    ∷ (if is_negative offset then codes "-" else codes "+")
    ∷ padded 2 (absolute offset / 60)
    ∷ codes ":"
    ∷ padded 2 (absolute offset % 60)
    ∷ codes " pid="
    ∷ decimal now.pid
    ∷ codes " tid="
    ∷ decimal now.tid
    ∷ codes " level="
    ∷ level
    ∷ codes " event="
    ∷ []

unfoldable pub line_prefix : Clock → Text → Text
unfolding padded zone_offset
line_prefix now level = joined (prefix_parts now level)

-- The build's version, where it may be shown.
abbrev pub is_safe_version : Text → Bool
is_safe_version version =
    not (empty version)
    && leb (length version) 64
    && all (λ c. c == b'+' || field_char true true c) version

abbrev pub version_part : Option Text → Text
version_part none = []
version_part (some version) = if is_safe_version version then codes " version=" ++ version else []

abbrev pub labelled : Text → Text → Text
labelled label value = if empty value then [] else label ++ value

abbrev pub os_part : Option ℤ → Text
os_part none = []
os_part (some n) = codes " os_error=" ++ signed_decimal n

-- The event and what stands behind it, in parts.
abbrev pub line_parts : Option Text → Fields → List Text
line_parts version f =
    f.event
    ∷ version_part version
    ∷ labelled (codes " error_type=") f.error_type
    ∷ labelled (codes " error_code=") f.error_code
    ∷ os_part f.os_error
    ∷ labelled (codes " ") f.context
    ∷ []

abbrev pub is_invalid : ZoneState → Bool
is_invalid ZoneState.invalid = true
is_invalid _ = false

-- `Line`; `version` is the macro `FLUTTER_VERSION`, where the build defines it.
unfoldable pub line_of : Clock → Option Text → Fields → Text
unfolding line_prefix resolved_level signed_decimal
line_of now version f =
    let prefix = line_prefix now (resolved_level f) in
    if is_invalid now.zone_state || leb 180 (length prefix)
    then []
    else joined (prefix ∷ line_parts version f) ++ 13 ∷ 10 ∷ []

-- The arguments that `Write` accepts.
abbrev pub valid_fields : Fields → Bool
valid_fields f =
    valid_event f.event
    && (empty f.level || valid_level f.level)
    && (empty f.error_type || valid_error_type f.error_type)
    && (empty f.error_code || valid_error_code f.error_code)
    && valid_context f.context
