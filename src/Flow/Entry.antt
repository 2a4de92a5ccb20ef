-- ===== src/Flow/Entry.antt =====
-- custom_components/eisenberg/config_flow.py: the data of a config entry, what a login changes of it, the
-- place for media, and `str.strip` on the code.
use ha_eisenberg.Common.{
  ℕ, [], ◌∷◌, List, Option, none, some, String, Bool, true, false, ◌&&◌, ◌||◌, ◌==◌, leb, str_eq,
  ◌+s◌, if◌then◌else◌,
}
use Prim.Native.Char.{Char, code}
use ha_eisenberg.Dicts.{put}

-- A morsel of the cookie jar.
pub record Cookie : Type 0 where
  pub key : String
  pub value : String
  pub domain : String
  pub path : String

pub data Datum : Type 0 where
  text : String → Datum
  number : ℕ → Datum
  flag : Bool → Datum
  cookies : List Cookie → Datum

-- s.startswith(prefix)
unfoldable pub starts_with : String → String → Bool
starts_with s String.[] = true
starts_with String.[] (String.◌∷◌ p prefix) = false
starts_with (String.◌∷◌ c s) (String.◌∷◌ p prefix) = (code c == code p) && starts_with s prefix

abbrev pub trust_cookie_prefix : String
trust_cookie_prefix = "browser_trust_"

-- `_serialize_cookies`
unfoldable pub serialize_cookies : List Cookie → List Cookie
unfolding starts_with
serialize_cookies [] = []
serialize_cookies (m ∷ jar) =
    let others = serialize_cookies jar in
    if starts_with m.key trust_cookie_prefix then m ∷ others else others

abbrev pub cookies_of : Option (List Cookie) → List Cookie
cookies_of none = []
cookies_of (some jar) = serialize_cookies jar

abbrev pub media_dir_disabled : String
media_dir_disabled = "__disabled__"

-- Of the entry that exists, `choices[name] = ...` for each directory; 'Disabled' first.
unfoldable pub add_choices :
    List (String × String) → List (String × String) → List (String × String)
unfolding put
add_choices choices [] = choices
add_choices choices ((name, path) ∷ dirs) =
    add_choices (put choices name (name +s " (" +s path +s ")")) dirs

unfoldable pub media_dir_choices : List (String × String) → List (String × String)
unfolding add_choices
media_dir_choices dirs = add_choices ((media_dir_disabled, "Disabled") ∷ []) dirs

unfoldable pub stored_media_dir : String → String
stored_media_dir selected = if str_eq selected media_dir_disabled then "" else selected

unfoldable pub media_dir_default : String → String
media_dir_default stored = if str_eq stored "" then media_dir_disabled else stored

-- The data and the options of a new entry.
unfoldable pub entry_data : String → String → String → Option (List Cookie) → List (String × Datum)
unfolding serialize_cookies
entry_data username password device_id jar =
    ("username", text username)
    ∷ ("password", text password)
    ∷ ("device_id", text device_id)
    ∷ ("trust_cookie", cookies (cookies_of jar))
    ∷ []

unfoldable pub entry_options : String → List (String × Datum)
unfolding stored_media_dir
entry_options selected =
    ("media_dir", text (stored_media_dir selected))
    ∷ ("detection_timeout", number 30)
    ∷ ("media_retention_days", number 14)
    ∷ []

-- The cookies are written only when there are some.
unfoldable pub put_cookies : List (String × Datum) → List Cookie → List (String × Datum)
unfolding put
put_cookies entry [] = entry
put_cookies entry (m ∷ jar) = put entry "trust_cookie" (cookies (m ∷ jar))

unfoldable pub updated_data :
    List (String × Datum) → String → String → String → Option (List Cookie) → List (String × Datum)
unfolding put put_cookies serialize_cookies
updated_data entry username password device_id jar =
    put_cookies
      (put (put (put entry "username" (text username)) "password" (text password)) "device_id"
        (text device_id))
      (cookies_of jar)

-- The options flow's entry: what the user gave, the media directory as it is stored.
unfoldable pub options_data : List (String × Datum) → String → List (String × Datum)
unfolding put stored_media_dir
options_data given selected = put given "media_dir" (text (stored_media_dir selected))

-- The characters that `str.strip` takes off.
unfoldable pub is_space : ℕ → Bool
is_space n =
    (leb 9 n && leb n 13)
    || (leb 28 n && leb n 32)
    || (n == 133)
    || (n == 160)
    || (n == 5760)
    || (leb 8192 n && leb n 8202)
    || (n == 8232)
    || (n == 8233)
    || (n == 8239)
    || (n == 8287)
    || (n == 12288)

abbrev pub before_end : Char → String → String
before_end c String.[] = if is_space (code c) then String.[] else String.◌∷◌ c String.[]
before_end c (String.◌∷◌ d s) = String.◌∷◌ c (String.◌∷◌ d s)

unfoldable pub rstrip : String → String
unfolding is_space
rstrip String.[] = String.[]
rstrip (String.◌∷◌ c s) = before_end c (rstrip s)

unfoldable pub lstrip : String → String
unfolding is_space
lstrip String.[] = String.[]
lstrip (String.◌∷◌ c s) = let rest = lstrip s in if is_space (code c) then rest else String.◌∷◌ c s

unfoldable pub strip : String → String
unfolding lstrip rstrip
strip s = rstrip (lstrip s)
