-- ===== src/InputBlock/Sas.antt =====
-- `ExecuteSendSas` of windows/runner/input_block.cpp, which sets a value of the registry while it sends
-- Ctrl+Alt+Del, and what it leaves of the value.
use ligament_apps.Common.{
  ℕ, ◌≤◌, ◌≡◌, refl, sym, ap, ◌∙◌, ◌↔◌, inl, inr, Bool, true, false, ◌&&◌, Option, none, some, List,
  [], ◌∷◌, ◌++◌, arith, ltb, if◌then◌else◌, not, Bool-cases, Option-cases, length, take,
}

-- `SoftwareSASGeneration`: its type and its bytes.
abbrev pub Value : Type 0
Value = ℕ × List ℕ

-- Whether the key is opened, sas.dll is loaded and has `SendSAS`, and whether the value is set before,
-- set behind and deleted.
pub record Windows : Type 0 where
  pub opened : Bool
  pub loaded : Bool
  pub has_send_sas : Bool
  pub set_before : Bool
  pub set_behind : Bool
  pub deleted : Bool

-- The value in the registry, and the value at each call of `SendSAS`.
pub record Registry : Type 0 where
  pub value : Option Value
  pub sent : List (Option Value)

-- `RegQueryValueExW` into a DWORD that is 0: a value of more than four bytes is refused, a shorter one
-- leaves the other bytes.
unfoldable pub query_original : Option Value → Option Value
query_original none = none
query_original (some (kind, bytes)) =
    if ltb 4 (length bytes) then none else some (kind, take 4 (bytes ++ 0 ∷ 0 ∷ 0 ∷ 0 ∷ []))

abbrev set_value : Bool → Option Value → Registry → Registry
set_value ok v r = if ok then record r { value = v } else r

-- 4 is REG_DWORD.
abbrev pub allowed : Option Value
allowed = some (4, 3 ∷ 0 ∷ 0 ∷ 0 ∷ [])

unfoldable pub execute_send_sas : Windows → Registry → Registry
unfolding query_original
execute_send_sas w r =
    let enabled = if w.opened then set_value w.set_before allowed r else r in
    let called =
      if w.loaded && w.has_send_sas
      then record enabled { sent = enabled.value ∷ enabled.sent }
      else enabled in
    if not w.opened then called else elim (query_original r.value) [
      | some original ↦ set_value w.set_behind (some original) called
      | none ↦ set_value w.deleted none called
    ]

-- The registry does what it is asked.
pub record Obeys (w : Windows) : Type 0 where
  pub opened : w.opened ≡ true
  pub set_before : w.set_before ≡ true
  pub set_behind : w.set_behind ≡ true
  pub deleted : w.deleted ≡ true

take_four : (bytes : List ℕ) → length bytes ≡ 4 → take 4 (bytes ++ 0 ∷ 0 ∷ 0 ∷ 0 ∷ []) ≡ bytes
take_four (a ∷ b ∷ c ∷ d ∷ []) e = refl
take_four [] e = absurd (omega (arith, e))
take_four (a ∷ []) e = absurd (omega (arith, e))
take_four (a ∷ b ∷ []) e = absurd (omega (arith, e))
take_four (a ∷ b ∷ c ∷ []) e = absurd (omega (arith, e))
take_four (a ∷ b ∷ c ∷ d ∷ x ∷ bytes) e = absurd (omega (arith, e))

-- A short value comes back with four bytes.
length-padded :
    (bytes : List ℕ) → length bytes ≤ 4 → length (take 4 (bytes ++ 0 ∷ 0 ∷ 0 ∷ 0 ∷ [])) ≡ 4
length-padded (a ∷ b ∷ c ∷ d ∷ []) e = refl
length-padded [] e = refl
length-padded (a ∷ []) e = refl
length-padded (a ∷ b ∷ []) e = refl
length-padded (a ∷ b ∷ c ∷ []) e = refl
length-padded (a ∷ b ∷ c ∷ d ∷ x ∷ bytes) e = absurd (omega (arith, e))

-- The value is as before, in words of its own.
abbrev pub IsDword : Option Value → Type 0
IsDword none = Unit
IsDword (some (kind, bytes)) = length bytes ≡ 4

value-execute :
    (w : Windows) (r : Registry) → Obeys w → (execute_send_sas w r).value ≡ query_original r.value
unfolding execute_send_sas
value-execute w r o = elim (Option-cases (query_original r.value)) [
  | inl e ↦ ground (arith, o, e)
  | inr (v, e) ↦ ground (arith, o, e)
]

sent-execute :
    (w : Windows) (r : Registry)
    → Obeys w
    → (execute_send_sas w r).sent
      ≡ (if w.loaded && w.has_send_sas then allowed ∷ r.sent else r.sent)
unfolding execute_send_sas
sent-execute w r o = elim (Option-cases (query_original r.value)) [
  | inl e ↦ ground (arith, o, e)
  | inr (v, e) ↦ ground (arith, o, e)
]

query_original_iff : (v : Option Value) → (query_original v ≡ v) ↔ IsDword v
unfolding query_original
query_original_iff none = (λ h. tt, λ h. refl)
query_original_iff (some (kind, bytes)) = (
  λ h. elim (Bool-cases (ltb 4 (length bytes))) [
    | inl long ↦ absurd (ground (arith, h, long))
    | inr short ↦ omega (
      arith,
      length-padded bytes (ground (arith, short)),
      ap length (bytes_of kind bytes h short),
    )
  ],
  λ h. ground (arith, h, take_four bytes h),
)
  where
    bytes_of :
        (kind : ℕ) (bytes : List ℕ)
        → query_original (some (kind, bytes)) ≡ some (kind, bytes)
        → ltb 4 (length bytes) ≡ false
        → take 4 (bytes ++ 0 ∷ 0 ∷ 0 ∷ 0 ∷ []) ≡ bytes
    bytes_of kind bytes h short = ground (arith, h, short)

-- Where the registry does what it is asked, sending SAS leaves the value that allows it as it was
-- exactly where that was absent or has four bytes, and SendSAS is called once with the value 3
-- where it is there, else not.
pub execute_send_sas_iff :
    (w : Windows) (r : Registry)
    → Obeys w
    → (((execute_send_sas w r).value ≡ r.value) ↔ IsDword r.value)
      × ((execute_send_sas w r).sent
          ≡ (if w.loaded && w.has_send_sas then allowed ∷ r.sent else r.sent))
execute_send_sas_iff w r o = (
  (
    λ h. (query_original_iff r.value).0 (sym (value-execute w r o) ∙ h),
    λ h. value-execute w r o ∙ (query_original_iff r.value).1 h,
  ),
  sent-execute w r o,
)
