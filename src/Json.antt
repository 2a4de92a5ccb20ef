-- ===== src/Json.antt =====
-- The values that `json.loads` gives, and what the handlers ask of them.
use ha_eisenberg.Common.{ℕ, Option, none, some, String, Bool, false, str_eq, if◌then◌else◌}

-- int
pub data ℤ : Type 0 where
  pos : ℕ → ℤ
  negsuc : ℕ → ℤ

-- A number with a fraction keeps its text.
mutual
  pub data Json : Type 0 where
    null : Json
    bool : Bool → Json
    int : ℤ → Json
    float : String → Json
    str : String → Json
    array : Items → Json
    object : Entries → Json

  pub data Items : Type 0 where
    no_items : Items
    item : Json → Items → Items

  pub data Entries : Type 0 where
    no_entries : Entries
    entry : String → Json → Entries → Entries

-- payload.get(key)
unfoldable pub get : Entries → String → Option Json
get no_entries key = none
get (entry k v entries) key =
    let further = get entries key in if str_eq k key then some v else further

-- value if isinstance(value, str), of a value that may be missing.
abbrev pub as_str : Option Json → Option String
as_str (some (str s)) = some s
as_str (some null) = none
as_str (some (bool b)) = none
as_str (some (int n)) = none
as_str (some (float f)) = none
as_str (some (array l)) = none
as_str (some (object o)) = none
as_str none = none

abbrev pub as_object : Option Json → Option Entries
as_object (some (object o)) = some o
as_object (some null) = none
as_object (some (bool b)) = none
as_object (some (int n)) = none
as_object (some (float f)) = none
as_object (some (array l)) = none
as_object (some (str s)) = none
as_object none = none

-- payload.get(key) == text
abbrev pub is_str : Option String → String → Bool
is_str none s = false
is_str (some t) s = str_eq t s
