-- ===== src/ErrorHandler.antt =====
-- error.rs (src/error.rs): `AppError` and `ErrorHandler`. The UUID and the time of a new error are its
-- `Stamp`; an error's source is kept as its text. The three default pages, the reasons that the
-- crate http has for a status, and the rendering of times are the record `Texts`; of the generic page
-- and of JSON, the values that stand in it are given. Logging and the panic hook are left out, and the
-- notifications and the tracking service, which send nothing, are what they are called with. The map
-- of counts is keyed by the status itself, which its text stands for.
use miwidothttp.Prelude.{
  ℕ, ◌+◌, ◌%◌, ◌^◌, Bool, true, false, ◌&&◌, ◌||◌, Option, none, some, is_some, List, [], ◌∷◌,
  String, append_text, unwrap_or, replace, contains_text, ltb, leb, ◌==◌, nat_eq, string_eq,
  if◌then◌else◌, ◌>>=◌,
}
use miwidothttp.Prelude.Assoc.{lookup, insert}
use miwidothttp.Rewrite.{decimal_text}
mod Errors
unfoldable pub use Errors.*
pub mod Notifications
pub mod Secrecy
pub mod Recovery
mod Tests

pub data ErrorMode : Type 0 where
  development production maintenance : ErrorMode

pub record NotificationConfig : Type 0 where
  pub email : Option String
  pub webhook : Option String
  pub threshold : ℕ
  pub interval : ℕ

pub record ErrorTrackingConfig : Type 0 where
  pub sentry_dsn : Option String
  pub datadog_api_key : Option String
  pub custom_endpoint : Option String

pub record ErrorConfig : Type 0 where
  pub mode : ErrorMode
  pub custom_pages : List (ℕ × String)
  pub templates_dir : Option String
  pub show_details : Bool
  pub log_errors : Bool
  pub notify_errors : Option NotificationConfig
  pub rate_limit_errors : Bool
  pub error_tracking : Option ErrorTrackingConfig

pub record ErrorHandler : Type 0 where
  pub config : ErrorConfig
  pub templates : List (ℕ × String)
  pub error_counts : List (ℕ × ℕ)

pub record Texts : Type 0 where
  pub page_404 : String
  pub page_500 : String
  pub page_503 : String
  pub canonical_reason : ℕ → Option String
  pub to_rfc3339 : ℕ → String

abbrev pub is_production : ErrorMode → Bool
is_production production = true
is_production development = false
is_production maintenance = false

abbrev pub is_development : ErrorMode → Bool
is_development development = true
is_development production = false
is_development maintenance = false

-- The loop over the custom pages, whose files are named in a directory: one is there or not, and gives
-- a text or fails to. `none` is that failure.
unfoldable pub load_templates :
    (exists : String → String → Bool) (read : String → String → Option String) (dir : String)
    → List (ℕ × String)
    → List (ℕ × String)
    → Option (List (ℕ × String))
load_templates exists read dir [] loaded = some loaded
load_templates exists read dir ((status, file) ∷ pages) loaded =
    if exists dir file
    then (do
      content ← read dir file
      load_templates exists read dir pages (insert status content loaded))
    else load_templates exists read dir pages loaded

-- `templates.entry(status).or_insert_with(page)`.
unfoldable pub or_insert : ℕ → String → List (ℕ × String) → List (ℕ × String)
or_insert status page templates =
    if is_some (lookup status templates) then templates else insert status page templates

unfoldable pub with_defaults : Texts → List (ℕ × String) → List (ℕ × String)
unfolding or_insert
with_defaults texts templates =
    or_insert 503 texts.page_503
      (or_insert 500 texts.page_500 (or_insert 404 texts.page_404 templates))

unfoldable pub custom_templates :
    (exists : String → String → Bool) (read : String → String → Option String)
    → ErrorConfig
    → Option (List (ℕ × String))
unfolding load_templates
custom_templates exists read config = elim config.templates_dir [
  | none ↦ some []
  | some dir ↦ load_templates exists read dir config.custom_pages []
]

unfoldable pub new :
    Texts
    → (exists : String → String → Bool) (read : String → String → Option String) → ErrorConfig
    → Option ErrorHandler
unfolding custom_templates with_defaults
new texts exists read config = do
  loaded ← custom_templates exists read config
  some record { config = config; templates = with_defaults texts loaded; error_counts = [] }

unfoldable pub get_user_friendly_message : ℕ → String
unfolding decimal_text
get_user_friendly_message status =
    if status == 404
    then "The page you're looking for doesn't exist."
    else if status == 401
    then "Please sign in to continue."
    else if status == 403
    then "You don't have permission to access this resource."
    else if status == 500
    then "Something went wrong on our end. Please try again later."
    else if status == 503
    then "Our service is temporarily unavailable. Please check back soon."
    else if status == 400
    then "There was a problem with your request."
    else if status == 429
    then "You've made too many requests. Please slow down."
    else append_text "An error occurred (" (append_text (decimal_text status) ")")

-- A count of 32 bits goes up (and round, in a release build), and falls to 0 where a notification is sent; that one is given, as the
-- count it is sent with.
unfoldable pub track_error : AppError → ErrorHandler → ErrorHandler × Option ℕ
track_error error h =
    let count = (unwrap_or (lookup error.status h.error_counts) 0 + 1) % 2 ^ 32 in
    let counted = λ (n : ℕ). record h { error_counts = insert error.status n h.error_counts } in
    elim h.config.notify_errors [
      | none ↦ (counted count, none)
      | some notify ↦
          if leb notify.threshold count then (counted 0, some count) else (counted count, none)
    ]

pub record DebugInfo : Type 0 where
  pub context : List (String × String)
  pub source : Option String

pub record ErrorResponse : Type 0 where
  pub code : String
  pub message : String
  pub details : Option String
  pub request_id : String
  pub timestamp : String
  pub debug : Option DebugInfo

-- What stands in the generic page, where a debug line is there or not.
pub record GenericPage : Type 0 where
  pub status : ℕ
  pub reason : String
  pub message : String
  pub debug : Option String
  pub error_id : String

pub data Body : Type 0 where
  json : ErrorResponse → Body
  html : String → Body
  generic : GenericPage → Body

pub record Response (Content : Type 0) : Type 0 where
  pub status : ℕ
  pub body : Content

unfoldable pub json_error_response : Texts → ErrorConfig → AppError → Response Body
unfolding get_user_friendly_message decimal_text
json_error_response texts config error = record {
  status = error.status;
  body = json record {
    code = unwrap_or error.code (decimal_text error.status);
    message =
        if is_production config.mode then get_user_friendly_message error.status else error.message;
    details = if config.show_details then error.details else none;
    request_id = error.id;
    timestamp = texts.to_rfc3339 error.timestamp;
    debug =
        if is_development config.mode && config.show_details
        then some record { context = error.context; source = error.source }
        else none;
  };
}

unfoldable pub render_template : Texts → String → AppError → String
unfolding replace decimal_text
render_template texts template error =
    let status = replace template "{{status}}" (decimal_text error.status) in
    let status_text =
      replace status "{{status_text}}" (unwrap_or (texts.canonical_reason error.status) "Error") in
    let message = replace status_text "{{message}}" error.message in
    let details = replace message "{{details}}" (unwrap_or error.details "") in
    let error_id = replace details "{{error_id}}" error.id in
    replace error_id "{{timestamp}}" (texts.to_rfc3339 error.timestamp)

unfoldable pub render_generic_error : Texts → ErrorConfig → AppError → GenericPage
unfolding get_user_friendly_message
render_generic_error texts config error = record {
  status = error.status;
  reason = unwrap_or (texts.canonical_reason error.status) "Error";
  message =
      if is_production config.mode then get_user_friendly_message error.status else error.message;
  debug = if is_development config.mode then error.details else none;
  error_id = error.id;
}

unfoldable pub html_error_response : Texts → ErrorHandler → AppError → Response Body
unfolding render_template render_generic_error
html_error_response texts h error = record {
  status = error.status;
  body = elim (lookup error.status h.templates) [
    | some template ↦ html (render_template texts template error)
    | none ↦ generic (render_generic_error texts h.config error)
  ];
}

-- The header Accept, where it can be read as text.
unfoldable pub accepted : (as_text : String → Option String) → List (String × String) → String
accepted as_text headers =
    unwrap_or (elim (lookup "accept" headers) [ none ↦ none | some v ↦ as_text v ]) "text/html"

unfoldable pub answer :
    Texts
    → (as_text : String → Option String) → AppError
    → List (String × String)
    → ErrorHandler
    → Response Body
unfolding json_error_response html_error_response accepted
answer texts as_text error headers h =
    if contains_text (accepted as_text headers) "application/json"
    then json_error_response texts h.config error
    else html_error_response texts h error

-- The new state, the notification and the answer.
unfoldable pub handle_error :
    Texts
    → (as_text : String → Option String) → AppError
    → List (String × String)
    → ErrorHandler
    → ErrorHandler × Option ℕ × Response Body
unfolding track_error answer
handle_error texts as_text error headers h =
    let (h', notified) = track_error error h in
    (h', notified, answer texts as_text error headers h')
