-- ===== src/DebugLog.antt =====
-- The debug log of the desktop runner, windows/runner/debug_log.h and debug_log.cpp. This file has the
-- checks of debug_log.h on the fields of a record, on bytes.
pub mod Characters
pub mod Context
pub mod Access
pub mod Guarded
pub mod Refine
pub mod Line
pub mod Printable
pub mod File
pub mod Kept
pub mod Appended
pub mod State
pub mod Written
pub mod Samples
use ligament_apps.Common.{
  ℕ, zero, suc, ◌+◌, ◌-◌, ◌*◌, ◌/◌, ◌%◌, ◌^◌, ◌≤◌, ◌<◌, String, ◌≡◌, refl, sym, ap, ◌∙◌, ◌≢◌, ◌↔◌,
  ◌⊎◌, inl, inr, Bool, true, false, ◌&&◌, ◌||◌, Option, none, some, List, [], ◌∷◌, ◌++◌, map, arith,
  ltb, leb, ◌==◌, if◌then◌else◌, not, is_some, Bool-cases, Option-cases, length, take, drop,
  get_elem?, empty, any, all,
}
use ligament_apps.Common.Text.{Text, codes, eq_text, find_if}

abbrev pub is_lower : ℕ → Bool
is_lower c = leb b'a' c && leb c b'z'

abbrev pub is_upper : ℕ → Bool
is_upper c = leb b'A' c && leb c b'Z'

abbrev pub is_decimal : ℕ → Bool
is_decimal c = leb b'0' c && leb c b'9'

abbrev pub field_char : Bool → Bool → ℕ → Bool
field_char uppercase hyphen c =
    is_lower c
    || is_decimal c
    || c == b'_'
    || c == b'.'
    || uppercase && is_upper c
    || hyphen && c == b'-'

-- `ValidField(value, limit, uppercase, hyphen)`.
abbrev pub valid_field : Text → ℕ → Bool → Bool → Bool
valid_field value limit uppercase hyphen =
    if empty value || ltb limit (length value)
    then false
    else all (field_char uppercase hyphen) value

abbrev pub valid_event : Text → Bool
valid_event value = valid_field value 80 false true

-- `OneOf(value, values)`.
abbrev pub one_of : Text → List Text → Bool
one_of value values = any (λ candidate. eq_text candidate value) values

abbrev pub valid_level : Text → Bool
valid_level value =
    eq_text value (codes "INFO") || eq_text value (codes "WARN") || eq_text value (codes "ERROR")

abbrev pub valid_error_type : Text → Bool
valid_error_type value = valid_field value 64 true false

abbrev pub valid_error_code : Text → Bool
valid_error_code value = valid_field value 64 true true

-- The loop of `ValidNumber`, with its two flags.
abbrev pub number_from : Bool → Bool → Text → Bool
number_from digit dot [] = digit
number_from digit dot (c ∷ s) =
    let after_digit = number_from true dot s in
    let after_dot = number_from digit true s in
    if is_decimal c
    then after_digit
    else if c == b'.' && not dot && digit && not (empty s)
    then after_dot
    else false

abbrev pub behind_minus : Text → Text
behind_minus [] = []
behind_minus (c ∷ s) = if c == b'-' then s else c ∷ s

unfoldable pub valid_number : Text → Bool
valid_number value =
    if empty value || ltb 32 (length value)
    then false
    else number_from false false (behind_minus value)

abbrev pub is_hex : ℕ → Bool
is_hex c = is_decimal c || leb b'a' c && leb c b'f' || leb b'A' c && leb c b'F'

-- The loop of `ValidUuid`, from the index of the first character.
abbrev pub uuid_from : ℕ → Text → Bool
uuid_from i [] = true
uuid_from i (c ∷ s) =
    (if i == 8 || i == 13 || i == 18 || i == 23 then c == b'-' else is_hex c) && uuid_from (suc i) s

unfoldable pub valid_uuid : Text → Bool
valid_uuid value = if not (length value == 36) then false else uuid_from 0 value

abbrev pub looks_like_secret : Text → Bool
looks_like_secret value = if ltb (length value) 32 then false else all is_hex value

abbrev pub number_keys : List Text
number_keys =
    codes "request_id"
    ∷ codes "attempt"
    ∷ codes "duration_ms"
    ∷ codes "elapsed_ms"
    ∷ codes "count"
    ∷ codes "bytes"
    ∷ codes "response_bytes"
    ∷ codes "sent_bytes"
    ∷ codes "received_bytes"
    ∷ codes "width"
    ∷ codes "height"
    ∷ codes "frames"
    ∷ codes "rtt_ms"
    ∷ codes "queue_bytes"
    ∷ codes "acked_seq"
    ∷ codes "seq"
    ∷ codes "cursor"
    ∷ codes "ice_servers"
    ∷ codes "candidates"
    ∷ codes "tracks"
    ∷ codes "timeout_ms"
    ∷ codes "code"
    ∷ codes "http_status"
    ∷ codes "fps"
    ∷ codes "step"
    ∷ codes "monitor"
    ∷ codes "restarts"
    ∷ []

abbrev pub boolean_keys : List Text
boolean_keys =
    codes "connected"
    ∷ codes "frame_ready"
    ∷ codes "control_ready"
    ∷ codes "owner"
    ∷ codes "recorder_enabled"
    ∷ codes "mandatory"
    ∷ codes "first_frame_acked"
    ∷ codes "is_relay"
    ∷ []

abbrev pub label_keys : List Text
label_keys =
    codes "phase"
    ∷ codes "origin"
    ∷ codes "reason"
    ∷ codes "state"
    ∷ codes "ice_state"
    ∷ codes "pc_state"
    ∷ codes "dc_state"
    ∷ codes "message_type"
    ∷ codes "transport"
    ∷ codes "operation"
    ∷ codes "result"
    ∷ codes "status"
    ∷ codes "codec"
    ∷ codes "channel"
    ∷ codes "component"
    ∷ []

abbrev pub uuid_keys : List Text
uuid_keys = codes "session_id" ∷ codes "agent_id" ∷ codes "challenge_id" ∷ codes "target_id" ∷ []

abbrev pub methods : List Text
methods =
    codes "GET"
    ∷ codes "POST"
    ∷ codes "PUT"
    ∷ codes "PATCH"
    ∷ codes "DELETE"
    ∷ codes "HEAD"
    ∷ codes "OPTIONS"
    ∷ []

abbrev pub server_char : ℕ → Bool
server_char c = field_char true true c || c == b'[' || c == b']' || c == b':'

abbrev pub valid_server : Text → Bool
valid_server value = if empty value || ltb 253 (length value) then false else all server_char value

abbrev pub route_char : ℕ → Bool
route_char c = field_char true true c || c == b'/' || c == b'{' || c == b'}' || c == b':'

abbrev pub starts_with_slash : Text → Bool
starts_with_slash [] = false
starts_with_slash (c ∷ s) = c == b'/'

abbrev pub valid_route : Text → Bool
valid_route value =
    if not (starts_with_slash value) || ltb 240 (length value) then false else all route_char value

unfoldable pub valid_context_value : Text → Text → Bool
unfolding valid_number valid_uuid
valid_context_value key value =
    if one_of key number_keys
    then valid_number value
    else if one_of key boolean_keys
    then eq_text value (codes "true") || eq_text value (codes "false")
    else if one_of key uuid_keys
    then valid_uuid value
    else if one_of key label_keys
    then valid_error_code value && not (looks_like_secret value)
    else if eq_text key (codes "method")
    then one_of value methods
    else if eq_text key (codes "server")
    then valid_server value
    else if eq_text key (codes "route")
    then valid_route value
    else false

-- `key=value`, split at the first `=`.
unfoldable pub valid_token : Text → Bool
unfolding valid_context_value
valid_token token = elim (find_if (λ c. c == b'=') token) [
  | none ↦ false
  | some equal ↦ valid_context_value (take equal token) (drop (equal + 1) token)
]

-- The loop of `ValidContext`, with the number of fields that it may still take.
unfoldable pub valid_tokens : ℕ → Text → Bool
unfolding valid_token
valid_tokens zero context = empty context
valid_tokens (suc left) context =
    if empty context then true else elim (find_if (λ c. c == b' ') context) [
      | none ↦ valid_token context
      | some space ↦
          let rest = drop (space + 1) context in
          valid_token (take space context) && not (empty rest) && valid_tokens left rest
    ]

unfoldable pub valid_context : Text → Bool
unfolding valid_tokens
valid_context context = if ltb 4096 (length context) then false else valid_tokens 64 context
