-- ===== src/Flow/Data.antt =====
-- custom_components/eisenberg/config_flow.py: what a login leaves of an entry's data, and the place for media.
use mathlib.Core.Path.{subst}
use ha_eisenberg.Common.{
  ◌≡◌, ◌≢◌, refl, sym, ap, ◌∙◌, [], ◌∷◌, List, Option, none, some, String, Bool, true, false, ◌||◌,
  str_eq, ◌+s◌, str_eq_iff, if◌then◌else◌, All, arith, Bool-cases, inl, inr,
}
use ha_eisenberg.Dicts.{lookup, put, has_key, lookup-put, has_key-put}
use ha_eisenberg.Flow.Entry.{
  Cookie, Datum, text, cookies, starts_with, trust_cookie_prefix, serialize_cookies, cookies_of,
  put_cookies, updated_data, media_dir_disabled, add_choices, media_dir_choices, stored_media_dir,
  media_dir_default,
}

abbrev pub is_trusted : Cookie → Bool
is_trusted m = starts_with m.key trust_cookie_prefix

-- A login without a cookie leaves the old one.
abbrev pub fresh_or : List Cookie → Option Datum → Option Datum
fresh_or [] old = old
fresh_or (m ∷ jar) old = some (cookies (m ∷ jar))

lookup-put_cookies :
    (entry : List (String × Datum)) (jar : List Cookie) (k : String)
    → lookup (put_cookies entry jar) k
      ≡ (if str_eq "trust_cookie" k then fresh_or jar (lookup entry k) else lookup entry k)
unfolding put_cookies
lookup-put_cookies entry [] k = ground arith
lookup-put_cookies entry (m ∷ jar) k = lookup-put entry "trust_cookie" (cookies (m ∷ jar)) k

serialize_cookies-All :
    (jar : List Cookie) → All (λ (m : Cookie). is_trusted m ≡ true) (serialize_cookies jar)
unfolding serialize_cookies
serialize_cookies-All [] = tt
serialize_cookies-All (m ∷ jar) = elim (Bool-cases (is_trusted m)) [
  | inl e ↦ rw e (e, serialize_cookies-All jar)
  | inr e ↦ rw e (serialize_cookies-All jar)
]

trusted : (jar : Option (List Cookie)) → All (λ (m : Cookie). is_trusted m ≡ true) (cookies_of jar)
trusted none = tt
trusted (some jar) = serialize_cookies-All jar

has_key-add_choices :
    (choices dirs : List (String × String)) (k : String)
    → has_key (add_choices choices dirs) k ≡ (has_key choices k || has_key dirs k)
unfolding add_choices has_key
has_key-add_choices choices [] k = ground arith
has_key-add_choices choices ((name, path) ∷ dirs) k =
    let label = name +s " (" +s path +s ")" in
    ground
      (arith, has_key-put choices name label k, has_key-add_choices (put choices name label) dirs k)

-- The data with the account written into it.
abbrev signed_in : List (String × Datum) → String → String → String → List (String × Datum)
signed_in entry username password device_id =
    put (put (put entry "username" (text username)) "password" (text password)) "device_id"
      (text device_id)

abbrev pub account_or : String → String → String → String → Option Datum → Option Datum
account_or username password device_id k old =
    if str_eq "device_id" k
    then some (text device_id)
    else if str_eq "password" k
    then some (text password)
    else if str_eq "username" k
    then some (text username)
    else old

signed_in-lookup :
    (entry : List (String × Datum)) (username password device_id k : String)
    → lookup (signed_in entry username password device_id) k
      ≡ account_or username password device_id k (lookup entry k)
signed_in-lookup entry username password device_id k = ground (
  arith,
  lookup-put (put (put entry "username" (text username)) "password" (text password)) "device_id"
      (text device_id) k,
  lookup-put (put entry "username" (text username)) "password" (text password) k,
  lookup-put entry "username" (text username) k,
)

-- What an entry holds under a key after signing in again.
abbrev pub written :
    List (String × Datum) → String → String → String → Option (List Cookie) → String → Option Datum
written entry username password device_id jar k =
    if str_eq "trust_cookie" k
    then fresh_or (cookies_of jar) (lookup entry k)
    else account_or username password device_id k (lookup entry k)

-- Signing in again changes of an entry the name, the password and the device, and, only when the login
-- left a trust cookie, the cookies; all else stays as it was. Of the jar nothing is stored but trust cookies.
pub updated_data_lem :
    (entry : List (String × Datum)) (username password device_id : String)
    (jar : Option (List Cookie)) (k : String)
    → (lookup (updated_data entry username password device_id jar) k
        ≡ written entry username password device_id jar k)
      × All (λ (m : Cookie). is_trusted m ≡ true) (cookies_of jar)
unfolding updated_data
updated_data_lem entry username password device_id jar k = (
  elim (Bool-cases (str_eq "trust_cookie" k)) [
    | inl e ↦
        subst
          (λ (j : String).
            lookup (updated_data entry username password device_id jar) j
            ≡ written entry username password device_id jar j)
          ((str_eq_iff "trust_cookie" k).0 e)
          (lookup-put_cookies _ (cookies_of jar) "trust_cookie"
            ∙ ap (fresh_or (cookies_of jar))
                (signed_in-lookup entry username password device_id "trust_cookie"))
    | inr e ↦
        lookup-put_cookies _ (cookies_of jar) k
        ∙ rw e (signed_in-lookup entry username password device_id k)
  ],
  trusted jar,
)

abbrev disabled_first : List (String × String)
disabled_first = (media_dir_disabled, "Disabled") ∷ []

-- The options form of an entry offers as its default the directory that is stored, or 'Disabled' when none
-- is; the default is offered when the directory is still there; and submitting the form as it is stores
-- the same. What is stored is not the word for 'Disabled' itself.
pub stored-default :
    (dirs : List (String × String)) (stored : String)
    → stored ≢ media_dir_disabled
    → (stored_media_dir (media_dir_default stored) ≡ stored)
      × (has_key (media_dir_choices dirs) (media_dir_default stored)
          ≡ (str_eq stored "" || has_key dirs stored))
unfolding stored_media_dir media_dir_default media_dir_choices has_key
stored-default dirs stored h = elim (Bool-cases (str_eq stored "")) [
  | inl e ↦
      subst
        (λ (t : String).
          (stored_media_dir (media_dir_default t) ≡ t)
          × (has_key (media_dir_choices dirs) (media_dir_default t)
              ≡ (str_eq t "" || has_key dirs t)))
        (sym ((str_eq_iff stored "").0 e))
        (refl, has_key-add_choices disabled_first dirs media_dir_disabled)
  | inr e ↦
      let ne : str_eq stored media_dir_disabled ≡ false =
        ground (arith, str_eq_iff stored media_dir_disabled) in
      let other : str_eq media_dir_disabled stored ≡ false =
        ground (arith, str_eq_iff media_dir_disabled stored) in
      rw e (
        rw ne refl,
        has_key-add_choices disabled_first dirs stored
            ∙ ap (λ (b : Bool). (b || false) || has_key dirs stored) other,
      )
]
