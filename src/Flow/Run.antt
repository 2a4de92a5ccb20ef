-- ===== src/Flow/Run.antt =====
-- Home Assistant's flow manager on custom_components/eisenberg/config_flow.py: the input of the form that
-- is shown goes to the form's step; after an exception the form stays; an end takes no input.
use ha_eisenberg.Common.{[], ◌∷◌, List, Option, none, some, String}
use ha_eisenberg.Json.{null}
use ha_eisenberg.Flow.Entry.{Datum, media_dir_disabled}
use ha_eisenberg.Flow.{
  Account, Flow, Form, user, pick_factor, push_approval, otp_entry, media_storage, reauth_confirm,
  reauth_password, reauth_pick_factor, reauth_push, reauth_otp, FlowResult, show_form, abort,
  create_entry, update_entry, crash, Calls, async_step_user, async_step_pick_factor,
  async_step_push_approval, async_step_otp_entry, async_step_media_storage,
  async_step_reauth_confirm, async_step_reauth_password, async_step_reauth_pick_factor,
  async_step_reauth_push, async_step_reauth_otp,
}

-- The fields of the forms; each step reads its own.
pub record Input : Type 0 where
  pub username : String
  pub password : String
  pub factor_id : String
  pub otp : String
  pub media_dir : Option String

-- The form that is shown, none after the end, the flow, and what its last step gave.
pub record Stage : Type 0 where
  pub form : Option Form
  pub flow : Flow
  pub result : FlowResult

-- user_input.get(CONF_MEDIA_DIR, MEDIA_DIR_DISABLED)
abbrev pub or_disabled : Option String → String
or_disabled none = media_dir_disabled
or_disabled (some dir) = dir

abbrev pub next_form : Form → FlowResult → Option Form
next_form old (show_form form base) = some form
next_form old (abort reason) = none
next_form old (create_entry entry options) = none
next_form old (update_entry entry) = none
next_form old crash = some old

-- EisenbergConfigFlow.__init__, with the account that a flow begins with.
abbrev pub flow_for : Account → Flow
flow_for a = record {
  client = none;
  cookie_jar = none;
  account = a;
  factor_auth_code = null;
  factors = [];
  selected_factor = none;
}

-- `async_step_user`, and `async_step_reauth` or `async_step_reconfigure` on the stored account, without input.
pub data Start : Type 0 where
  setup : Start
  again : Account → Start

abbrev pub start_of : Start → Stage
start_of setup = record {
  form = some user;
  flow = flow_for (record { username = ""; password = ""; device_id = "" });
  result = show_form user none;
}
start_of (again a) = record {
  form = some reauth_confirm;
  flow = flow_for a;
  result = show_form reauth_confirm none;
}

abbrev pub stage_of : Form → Flow × FlowResult → Stage
stage_of old (f, result) = record { form = next_form old result; flow = f; result = result }

module _ (configured : List String) (entry : List (String × Datum)) where
  unfoldable pub submit : Form → Input → Calls → Flow → Flow × FlowResult
  unfolding async_step_user async_step_pick_factor async_step_push_approval async_step_otp_entry
      async_step_media_storage async_step_reauth_confirm async_step_reauth_password
      async_step_reauth_pick_factor async_step_reauth_push async_step_reauth_otp
  submit user i c f = async_step_user c f i.username i.password
  submit pick_factor i c f = async_step_pick_factor c f i.factor_id
  submit push_approval i c f = async_step_push_approval c f
  submit otp_entry i c f = async_step_otp_entry c f i.otp
  submit media_storage i c f = async_step_media_storage configured f (or_disabled i.media_dir)
  submit reauth_confirm i c f = async_step_reauth_confirm entry c f
  submit reauth_password i c f = async_step_reauth_password entry c f i.password
  submit reauth_pick_factor i c f = async_step_reauth_pick_factor c f i.factor_id
  submit reauth_push i c f = async_step_reauth_push entry c f
  submit reauth_otp i c f = async_step_reauth_otp entry c f i.otp

  abbrev pub step_at : Option Form → Stage → Input × Calls → Stage
  step_at none s e = s
  step_at (some form) s (i, c) = stage_of form (submit form i c s.flow)

  -- The submissions, the newest first.
  unfoldable pub run : Stage → List (Input × Calls) → Stage
  unfolding submit
  run s [] = s
  run s (e ∷ earlier) = let before = run s earlier in step_at before.form before e
