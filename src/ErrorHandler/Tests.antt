-- ===== src/ErrorHandler/Tests.antt =====
-- error.rs: a handler with one template of its own.
use miwidothttp.Prelude.{
  ℕ, ◌+◌, ◌<◌, ◌≡◌, refl, Bool, true, false, Option, none, some, List, [], ◌∷◌, String, nat_eq, All,
  arith,
}
use miwidothttp.Prelude.Assoc.{lookup, insert}
use miwidothttp.Metrics.Counters.{count_of}
use miwidothttp.ErrorHandler.{
  AppError, Stamp, ErrorConfig, ErrorHandler, production, maintenance, NotificationConfig, Texts,
  html, new, json_error_response, render_generic_error, html_error_response,
}
use miwidothttp.ErrorHandler.Notifications.{track_all, reported, how_many, track_all-new}
use miwidothttp.ErrorHandler.Secrecy.{production-secret}
use miwidothttp.ErrorHandler.Recovery.{Request}

abbrev texts : Texts
texts = record {
  page_404 = "404";
  page_500 = "500";
  page_503 = "503";
  canonical_reason = λ status. none;
  to_rfc3339 = λ time. "now";
}

abbrev notify : NotificationConfig
notify = record { email = none; webhook = none; threshold = 2; interval = 60 }

abbrev config : ErrorConfig
config = record {
  mode = production;
  custom_pages = (500, "500.html") ∷ [];
  templates_dir = some "pages";
  show_details = false;
  log_errors = true;
  notify_errors = some notify;
  rate_limit_errors = false;
  error_tracking = none;
}

abbrev in_maintenance : ErrorConfig
in_maintenance = record config { mode = maintenance; show_details = true }

abbrev there : String → String → Bool
there dir file = true

abbrev template_of : String → String → Option String
template_of dir file = some "{{status}}: {{details}}"

abbrev handler : ErrorHandler
handler = record {
  config = config;
  templates = (500, "{{status}}: {{details}}") ∷ (404, "404") ∷ (503, "503") ∷ [];
  error_counts = [];
}

abbrev stamp : Stamp
stamp = record { id = "e1"; timestamp = 5 }

made : new texts there template_of config ≡ some handler
unfolding new lookup insert
made = refl

abbrev from_io_error : AppError
from_io_error = record {
  id = "e1";
  status = 500;
  code = some "INTERNAL_ERROR";
  message = "Internal server error";
  details = some "/etc/key.pem: permission denied";
  source = some "/etc/key.pem: permission denied";
  context = [];
  timestamp = 5;
}

abbrev other_error : AppError
other_error = record from_io_error { details = none; source = none; message = "other" }

-- The details of an error reach a client through a template, in production and without show_details.
leak_run :
    (html_error_response texts handler from_io_error).body
    ≡ html "500: /etc/key.pem: permission denied"
unfolding html_error_response lookup
leak_run = refl

abbrev failures : List AppError
failures = from_io_error ∷ from_io_error ∷ from_io_error ∷ []

track_all-new_example :
    ((status : ℕ)
      → (reported status (track_all failures handler).1
            + count_of status (track_all failures handler).0.error_counts
          ≡ how_many status failures)
        × (count_of status (track_all failures handler).0.error_counts < 2))
    × All (λ n. n.1 ≡ 2) (track_all failures handler).1
track_all-new_example =
    track_all-new texts there template_of config notify handler failures made refl (omega arith)
      (omega arith)

production-secret_example :
    (json_error_response texts config from_io_error ≡ json_error_response texts config other_error)
    × (render_generic_error texts config from_io_error
        ≡ render_generic_error texts config other_error)
production-secret_example =
    production-secret texts config from_io_error other_error refl refl
      record { same_id = refl; same_status = refl; same_code = refl; same_time = refl }

abbrev no_text : String → Option String
no_text value = none

abbrev itself : ℕ → ℕ
itself status = status

abbrev gone : Request → ℕ
gone req = 410

abbrev asked : Request
asked = record { uri = "/a"; method = "GET"; headers = [] }
