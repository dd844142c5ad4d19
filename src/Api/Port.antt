-- ===== src/Api/Port.antt =====
-- internal/api/types.go: IntOrString, its String method and its JSON methods. `json.Marshal` and
-- `json.Unmarshal` of one int32 or one string are parameters.
use k8s_lite.Prelude.{
  ℕ, String, ◌≡◌, Option, none, some, true, false, if◌then◌else◌, ℤ, pos, str_eq, starts_with, ◌==◌,
  arith,
}

pub record IntOrString : Type 0 where
  pub type : ℕ
  pub int_val : ℤ
  pub str_val : String

abbrev pub zero_int_or_string : IntOrString
zero_int_or_string = record { type = 0; int_val = pos 0; str_val = "" }

-- What encoding/json does with an int32 and with a string.
pub record ScalarJson : Type 0 where
  pub marshal_int : ℤ → String
  pub marshal_string : String → String
  pub unmarshal_int : String → Option ℤ
  pub unmarshal_string : String → Option String
  pub format_int : ℤ → String
  pub int_round_trip : (n : ℤ) → unmarshal_int (marshal_int n) ≡ some n
  pub string_round_trip : (s : String) → unmarshal_string (marshal_string s) ≡ some s
  pub int_nonempty : (n : ℤ) → str_eq (marshal_int n) "" ≡ false
  pub string_nonempty : (s : String) → str_eq (marshal_string s) "" ≡ false
  pub int_unquoted : (n : ℤ) → starts_with (marshal_int n) "\"" ≡ false
  pub string_quoted : (s : String) → starts_with (marshal_string s) "\"" ≡ true

module _ (json : ScalarJson) where
  pub to_string : IntOrString → String
  to_string i = if i.type == 0 then json.format_int i.int_val else i.str_val

  unfoldable pub marshal_json : IntOrString → String
  marshal_json i = if i.type == 0 then json.marshal_int i.int_val else json.marshal_string i.str_val

  set_string : IntOrString → Option String → Option IntOrString
  set_string i none = none
  set_string i (some s) = some (record i { type = 1; str_val = s })

  set_int : IntOrString → Option ℤ → Option IntOrString
  set_int i none = none
  set_int i (some n) = some (record i { type = 0; int_val = n })

  -- The receiver is given and its new value returned; `none` is the error of `json.Unmarshal`.
  unfoldable pub unmarshal_json : IntOrString → String → Option IntOrString
  unfolding set_string set_int
  unmarshal_json i text =
      if str_eq text ""
      then some i
      else if starts_with text "\""
      then set_string i (json.unmarshal_string text)
      else set_int i (json.unmarshal_int text)

-- What a value becomes when it is written and read back: the other field is lost, and any type but
-- 0 is read as 1.
abbrev pub stored_port : IntOrString → IntOrString
stored_port i =
    if i.type == 0
    then record { type = 0; int_val = i.int_val; str_val = "" }
    else record { type = 1; int_val = pos 0; str_val = i.str_val }

-- Reading into a zero value what MarshalJSON wrote gives the canonical form of the value, which a
-- second round trip leaves alone.
pub unmarshal_json-marshal_json :
    (json : ScalarJson) (i : IntOrString)
    → (unmarshal_json json zero_int_or_string (marshal_json json i) ≡ some (stored_port i))
      × (stored_port (stored_port i) ≡ stored_port i)
unfolding unmarshal_json marshal_json
unmarshal_json-marshal_json json i = (
  ground (
    arith,
    json.int_round_trip i.int_val,
    json.string_round_trip i.str_val,
    json.int_nonempty i.int_val,
    json.string_nonempty i.str_val,
    json.int_unquoted i.int_val,
    json.string_quoted i.str_val,
  ),
  ground arith,
)
