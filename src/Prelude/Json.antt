-- ===== src/Prelude/Json.antt =====
-- What `json.loads` returns. A float is kept as whether it is zero, and its text.
use mathlib.Core.Bool.{Bool, true, false, not}
use Prim.Native.String.{String}
use procure_delta.Prelude.Tests.{str_eq, if◌then◌else◌}
use procure_delta.Prelude.Int.{ℤ}

mutual
  pub data Json : Type 0 where
    null : Json
    bool : Bool → Json
    integer : ℤ → Json
    real : Bool → String → Json
    text : String → Json
    array : JsonItems → Json
    object : JsonFields → Json

  pub data JsonItems : Type 0 where
    no_items : JsonItems
    item : Json → JsonItems → JsonItems

  pub data JsonFields : Type 0 where
    no_fields : JsonFields
    field : String → Json → JsonFields → JsonFields

-- `fields.get(name)`, which is `None` both for a missing key and for `null`.
abbrev pub get : String → JsonFields → Json
get name no_fields = null
get name (field k v fs) = if str_eq k name then v else get name fs

-- `name in fields`
abbrev pub has_field : String → JsonFields → Bool
has_field name no_fields = false
has_field name (field k v fs) = if str_eq k name then true else has_field name fs

abbrev pub is_null : Json → Bool
is_null null = true
is_null (bool _) = false
is_null (integer _) = false
is_null (real _ _) = false
is_null (text _) = false
is_null (array _) = false
is_null (object _) = false

-- `value is False`
abbrev pub is_false : Json → Bool
is_false (bool b) = not b
is_false null = false
is_false (integer _) = false
is_false (real _ _) = false
is_false (text _) = false
is_false (array _) = false
is_false (object _) = false

-- `value == t` for a text t
abbrev pub text_is : String → Json → Bool
text_is t (text s) = str_eq s t
text_is t null = false
text_is t (bool _) = false
text_is t (integer _) = false
text_is t (real _ _) = false
text_is t (array _) = false
text_is t (object _) = false

-- `value == []`
abbrev pub is_empty_array : Json → Bool
is_empty_array (array no_items) = true
is_empty_array (array (item _ _)) = false
is_empty_array null = false
is_empty_array (bool _) = false
is_empty_array (integer _) = false
is_empty_array (real _ _) = false
is_empty_array (text _) = false
is_empty_array (object _) = false

-- A list or a dictionary cannot be a member of a set.
abbrev pub is_hashable : Json → Bool
is_hashable (array _) = false
is_hashable (object _) = false
is_hashable null = true
is_hashable (bool _) = true
is_hashable (integer _) = true
is_hashable (real _ _) = true
is_hashable (text _) = true
