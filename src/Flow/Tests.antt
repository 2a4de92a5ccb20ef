-- ===== src/Flow/Tests.antt =====
-- Runs of the flows, and their theorems at concrete inputs.
use ha_eisenberg.Common.{
  ◌≡◌, refl, [], ◌∷◌, List, Option, none, some, String, Bool, true, false, ◌||◌, str_eq, str_eq_iff,
  if◌then◌else◌, All,
}
use ha_eisenberg.Json.{null, str}
use ha_eisenberg.Dicts.{lookup, has_key}
use ha_eisenberg.Http.{email, SecondFactor, mfa_required, authentication, Result, ok, err}
use ha_eisenberg.Topics.{contains}
use ha_eisenberg.Flow.Entry.{
  Cookie, Datum, text, cookies, cookies_of, entry_data, entry_options, serialize_cookies,
  starts_with, strip, updated_data, stored_media_dir, media_dir_default, media_dir_choices,
}
use ha_eisenberg.Flow.{
  Account, Calls, create_entry, show_form, otp_entry, factor_with, fired, on_mfa_required,
}
use ha_eisenberg.Flow.Run.{Input, setup, start_of, submit, run}
use ha_eisenberg.Flow.Accepted.{IsJustified, run-IsJustified}
use ha_eisenberg.Flow.Completed.{willing, repeat, run-willing}
use ha_eisenberg.Flow.Data.{is_trusted, written, updated_data_lem, stored-default}

abbrev a_factor : String → SecondFactor
a_factor id = record {
  factor_id = id;
  factor_type = email;
  display_name = "mail";
  factor_nickname = none;
  factor_role = "PRIMARY";
}

abbrev trust_cookie : Cookie
trust_cookie = record { key = "browser_trust_1"; value = "v"; domain = "arlo"; path = "/" }

abbrev session_cookie : Cookie
session_cookie = record { key = "JSESSIONID"; value = "s"; domain = "arlo"; path = "/" }

abbrev accepts_code : Option String → Result Bool
accepts_code none = ok false
accepts_code (some otp) = if str_eq otp "123" then ok true else err authentication

-- Arlo wants a second factor, and the code 123.
abbrev arlo : Calls
arlo = record {
  login = λ a. err (mfa_required (a_factor "F" ∷ a_factor "G" ∷ []));
  start_mfa = λ a factor. ok (str "code");
  try_finish_auth = λ a code otp. accepts_code otp;
  jar = session_cookie ∷ trust_cookie ∷ [];
  fresh_id = "eisenberg-1";
}

abbrev typed : String → Input
typed otp = record { username = "u"; password = "p"; factor_id = "G"; otp = otp; media_dir = none }

abbrev signing_up : List (Input × Calls)
signing_up = (typed "", arlo) ∷ (typed " 123 ", arlo) ∷ (typed "", arlo) ∷ (typed "", arlo) ∷ []

signed_up :
    (run [] [] (start_of setup) signing_up).result
    ≡ create_entry
        (entry_data "u" "p" "eisenberg-1" (some (trust_cookie ∷ [])))
        (entry_options "__disabled__")
unfolding run submit entry_data entry_options factor_with fired on_mfa_required contains
    serialize_cookies starts_with strip
signed_up = refl

wrong_code :
    (run [] []
      (start_of setup)
      ((typed "12", arlo) ∷ (typed "", arlo) ∷ (typed "", arlo) ∷ [])).result
    ≡ show_form otp_entry (some "invalid_otp")
unfolding run submit factor_with fired on_mfa_required strip
wrong_code = refl

abbrev owner : Account
owner = record { username = "u"; password = "p"; device_id = "d" }

run-IsJustified_example :
    let s = run [] [] (start_of setup) signing_up in IsJustified [] signing_up s.flow s.result
run-IsJustified_example = run-IsJustified [] [] setup signing_up

abbrev stored_entry : List (String × Datum)
stored_entry = ("trust_cookie", cookies (trust_cookie ∷ [])) ∷ ("extra", text "x") ∷ []

-- A login without a trust cookie.
updated_data_example :
    (lookup (updated_data stored_entry "u" "p" "d" (some (session_cookie ∷ []))) "trust_cookie"
      ≡ written stored_entry "u" "p" "d" (some (session_cookie ∷ [])) "trust_cookie")
    × All (λ (m : Cookie). is_trusted m ≡ true) (cookies_of (some (session_cookie ∷ [])))
updated_data_example =
    updated_data_lem stored_entry "u" "p" "d" (some (session_cookie ∷ [])) "trust_cookie"

stored-default_example :
    (stored_media_dir (media_dir_default "local") ≡ "local")
    × (has_key (media_dir_choices (("local", "/media") ∷ [])) (media_dir_default "local")
        ≡ (str_eq "local" "" || has_key {V = String} (("local", "/media") ∷ []) "local"))
stored-default_example =
    stored-default (("local", "/media") ∷ []) "local"
      (λ e. let h : false ≡ true = (str_eq_iff "local" "__disabled__").1 e in cc)

none_configured : contains [] "u" ≡ false
unfolding contains
none_configured = refl

offered : factor_with (a_factor "F" ∷ a_factor "G" ∷ []) "G" ≡ some (a_factor "G")
unfolding factor_with
offered = refl

abbrev choosing : Input
choosing = record (typed "1") { factor_id = "G" }

run-willing_example :
    (run [] [] (start_of setup) (
      repeat 4
        (choosing, willing (a_factor "F" ∷ a_factor "G" ∷ []) null (trust_cookie ∷ []) "d"))).result
    ≡ create_entry
        (entry_data "u" "p" "d" (some (trust_cookie ∷ [])))
        (entry_options "__disabled__")
run-willing_example =
    run-willing [] [] choosing (a_factor "F" ∷ a_factor "G" ∷ []) null (trust_cookie ∷ []) "d"
      none_configured (a_factor "G", offered)
