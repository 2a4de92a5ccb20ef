-- ===== src/Http.antt =====
-- eisenberg/exceptions.py, and of eisenberg/client.py the client's state, the exchange of one request and
-- the checks of what Arlo answers.
pub mod Rules
use ha_eisenberg.Common.{
  ℕ, zero, suc, [], ◌∷◌, ◌++◌, List, Option, none, some, String, Bool, true, false, not, ◌||◌, ◌==◌,
  str_eq, if◌then◌else◌,
}
use ha_eisenberg.Json.{
  Json, null, bool, int, float, str, array, object, Items, no_items, item, Entries, no_entries,
  entry, pos, negsuc, get, as_str, is_str, as_object,
}

pub data FactorType : Type 0 where
  push email sms browser : FactorType

pub record SecondFactor : Type 0 where
  pub factor_id : String
  pub factor_type : FactorType
  pub display_name : String
  pub factor_nickname : Option String
  pub factor_role : String

-- The exceptions, without their texts. The last three are Python's and aiohttp's own: a RuntimeError, a
-- KeyError, TypeError or ValueError (pydantic's ValidationError is one), and a request that did not get through.
pub data Error : Type 0 where
  authentication session_expired rate_limited transient api : Error
  mfa_required : List SecondFactor → Error
  runtime malformed unreachable : Error

-- isinstance(err, AuthenticationError)
abbrev pub is_authentication : Error → Bool
is_authentication authentication = true
is_authentication session_expired = true
is_authentication (mfa_required factors) = true
is_authentication rate_limited = false
is_authentication transient = false
is_authentication api = false
is_authentication runtime = false
is_authentication malformed = false
is_authentication unreachable = false

pub data Result (A : Type 0) : Type 0 where
  ok : A → Result A
  err : Error → Result A

-- What is sent: the path, the token and the xCloudId of the headers, and the body without `transId`,
-- which is a time stamp.
pub record Request : Type 0 where
  pub path : String
  pub token : Json
  pub cloud_id : String
  pub body : Json

pub data Reply : Type 0 where
  json : Json → Reply
  not_json no_reply : Reply

-- EisenbergClient: `null` is None.
pub record Client : Type 0 where
  pub token : Json
  pub user_id : Json
  pub mqtt_url : Json
  pub x_cloud_id : Option String
  pub device_cloud_ids : List (String × String)
  pub device_parent_ids : List (String × String)
  pub token_issued_at : ℕ

-- The client, time.monotonic(), what Arlo will answer, and what has been sent.
pub record World : Type 0 where
  pub client : Client
  pub clock : ℕ
  pub replies : List Reply
  pub sent : List Request

abbrev pub Action : Type 0 → Type 0
Action A = World → Result A × World

module _ {A : Type 0} where
  unfoldable pub pure : A → Action A
  pure a w = (ok a, w)

  unfoldable pub raise : Error → Action A
  raise e w = (err e, w)

  unfoldable pub or_raise : Option A → Error → Action A
  or_raise none e w = (err e, w)
  or_raise (some a) e w = (ok a, w)

  unfoldable pub gets : (Client → A) → Action A
  gets f w = (ok (f w.client), w)

unfoldable pub raise_if : Bool → Error → Action (Unit {0})
raise_if c e w = (if c then err e else ok tt, w)

unfoldable pub modify : (Client → Client) → Action (Unit {0})
modify f w = (ok tt, record w { client = f w.client })

-- time.monotonic()
unfoldable pub monotonic : Action ℕ
monotonic w = (ok w.clock, w)

-- How a chain goes on from what its first action has come to; what was written stays written.
abbrev pub go_on : {A B : Type 0} → (A → Action B) → Result A × World → Result B × World
go_on f (ok a, w) = f a w
go_on f (err e, w) = (err e, w)

infixl 5 ◌>>=◌ ◌>>◌
unfoldable pub ◌>>=◌ : {A B : Type 0} → Action A → (A → Action B) → Action B
unfolding pure raise or_raise gets raise_if modify monotonic
◌>>=◌ m f w = go_on f (m w)

abbrev pub ◌>>◌ : {B : Type 0} → Action (Unit {0}) → Action B → Action B
m >> k = m >>= λ _. k

-- session.post(...) and `_read_arlo_json`
abbrev pub answer : Option Reply → Result Json
answer none = err unreachable
answer (some no_reply) = err unreachable
answer (some not_json) = err transient
answer (some (json j)) = ok j

abbrev pub next_reply : List Reply → Option Reply
next_reply [] = none
next_reply (r ∷ rs) = some r

abbrev pub later_replies : List Reply → List Reply
later_replies [] = []
later_replies (r ∷ rs) = rs

unfoldable pub exchange : Request → Action Json
exchange r w = (
  answer (next_reply w.replies),
  record w { replies = later_replies w.replies; sent = w.sent ++ (r ∷ []) },
)

abbrev pub meta_in : Option Entries → Option Entries
meta_in none = none
meta_in (some entries) = as_object (get entries "meta")

-- `_arlo_meta`
unfoldable pub arlo_meta : Json → Action Entries
unfolding get
arlo_meta body = or_raise (meta_in (as_object (some body))) transient

abbrev pub is_too_many : Entries → Bool
is_too_many meta = is_str (as_str (get meta "message")) "Too many requests"

-- value == 200
abbrev pub is_200 : Json → Bool
is_200 (int (pos n)) = n == 200
is_200 (int (negsuc n)) = false
is_200 null = false
is_200 (bool b) = false
is_200 (float f) = false
is_200 (str s) = false
is_200 (array l) = false
is_200 (object o) = false

abbrev pub get_in : Option Entries → String → Option Json
get_in none key = none
get_in (some entries) key = get entries key

-- body[key], which raises when it is missing
unfoldable pub subscript : Json → String → Action Json
unfolding get
subscript body key = or_raise (get_in (as_object (some body)) key) malformed

-- bool(value)
abbrev pub is_truthy : Option Json → Bool
is_truthy none = false
is_truthy (some null) = false
is_truthy (some (bool b)) = b
is_truthy (some (int (pos n))) = not (n == 0)
is_truthy (some (int (negsuc n))) = true
is_truthy (some (float f)) = not (str_eq f "0.0" || str_eq f "-0.0")
is_truthy (some (str s)) = not (str_eq s "")
is_truthy (some (array no_items)) = false
is_truthy (some (array (item j l))) = true
is_truthy (some (object no_entries)) = false
is_truthy (some (object (entry k v o))) = true

-- meta["code"] == 200
unfoldable pub code_is_200 : Entries → Action Bool
unfolding get
code_is_200 meta = do code ← or_raise (get meta "code") malformed; pure (is_200 code)

abbrev pub or_empty : Option Entries → Entries
or_empty none = no_entries
or_empty (some o) = o

-- str(data.get("error", "unknown")) == "2015": a text or the number itself.
abbrev pub is_2015 : Option Json → Bool
is_2015 none = false
is_2015 (some (str s)) = str_eq s "2015"
is_2015 (some (int (pos n))) = n == 2015
is_2015 (some (int (negsuc n))) = false
is_2015 (some null) = false
is_2015 (some (bool b)) = false
is_2015 (some (float f)) = false
is_2015 (some (array l)) = false
is_2015 (some (object o)) = false

-- `_raise_for_arlo_error`
unfoldable pub raise_for_arlo_error : {A : Type 0} → Entries → Action A
unfolding get
raise_for_arlo_error body =
    if is_2015 (get (or_empty (as_object (get body "data"))) "error")
    then raise session_expired
    else raise api

-- The object of a body; anything else has no `get`.
abbrev pub entries_of : Json → Action Entries
entries_of body = or_raise (as_object (some body)) malformed

-- if not body.get("success"): _raise_for_arlo_error(body, ...)
unfoldable pub require_success : Json → Action (Unit {0})
unfolding raise_for_arlo_error get
require_success body = do
  entries ← entries_of body
  if is_truthy (get entries "success") then pure tt else raise_for_arlo_error entries
