-- ===== src/ErrorHandler/Recovery.antt =====
-- error.rs: `error_recovery_middleware`, around the rest of the program, `next`, whose responses are of
-- any type with a status.
use miwidothttp.Prelude.{
  ℕ, ◌≡◌, refl, sym, ap, subst, ◌∙◌, Bool, true, false, ◌&&◌, Option, none, List, String, leb,
  Bool-cases, inl, inr, if◌then◌else◌, contains_text,
}
use miwidothttp.ErrorHandler.{
  AppError, Stamp, new_error, with_context, ErrorHandler, Texts, Response, Body, handle_error,
  answer, accepted, track_error, json_error_response, html_error_response,
}

pub record Request : Type 0 where
  pub uri : String
  pub method : String
  pub headers : List (String × String)

pub data Recovered (Inner : Type 0) : Type 0 where
  passed : Inner → Recovered Inner
  replaced : Response Body → Recovered Inner

-- `is_server_error() || is_client_error()`.
abbrev pub is_error : ℕ → Bool
is_error status = leb 400 status && leb status 599

unfoldable pub request_failed : Stamp → ℕ → Request → AppError
unfolding new_error with_context
request_failed stamp status req =
    with_context "method" req.method
      (with_context "uri" req.uri (new_error stamp status "Request failed"))

answer-status :
    (texts : Texts) (as_text : String → Option String) (error : AppError)
    (headers : List (String × String)) (h : ErrorHandler)
    → (answer texts as_text error headers h).status ≡ error.status
unfolding answer json_error_response html_error_response
answer-status texts as_text error headers h =
    elim (Bool-cases (contains_text (accepted as_text headers) "application/json")) [
      | inl is_json ↦ rw is_json refl
      | inr other ↦ rw other refl
    ]

module _ {Inner : Type 0} (status_of : Inner → ℕ) (texts : Texts)
    (as_text : String → Option String) where
  unfoldable pub error_recovery_middleware :
      Stamp
      → (next : Request → Inner) → Request
      → ErrorHandler
      → ErrorHandler × Option ℕ × Recovered Inner
  unfolding request_failed handle_error
  error_recovery_middleware stamp next req h =
      let response = next req in
      if is_error (status_of response)
      then (let (h', notified, said) =
            handle_error texts as_text (request_failed stamp (status_of response) req) req.headers
              h in
          (h', notified, replaced said))
      else (h, none, passed response)

  -- What an error of a status is answered.
  abbrev answered : Stamp → Request → ErrorHandler → ℕ → ErrorHandler × Option ℕ × Recovered Inner
  answered stamp req h status =
      let error = request_failed stamp status req in
      let tracked = track_error error h in
      (tracked.0, tracked.1, replaced (answer texts as_text error req.headers tracked.0))

  replaced_by :
      (stamp : Stamp) (next : Request → Inner) (req : Request) (h : ErrorHandler)
      → is_error (status_of (next req)) ≡ true
      → error_recovery_middleware stamp next req h ≡ answered stamp req h (status_of (next req))
  unfolding error_recovery_middleware handle_error
  replaced_by stamp next req h failed = rw (error_recovery_middleware, failed) refl

  -- A response with a status from 400 to 599 is replaced by an answer of the same status, and that is
  -- all that is left of it: another program whose response has this status, whatever else it says, is
  -- answered alike, with the same state and notification.
  pub error_recovery_middleware-replaces :
      (stamp : Stamp) (next other : Request → Inner) (req : Request) (h : ErrorHandler)
      → is_error (status_of (next req)) ≡ true
      → status_of (other req) ≡ status_of (next req)
      → (said : Response Body) × ((error_recovery_middleware stamp next req h).2 ≡ replaced said)
        × (said.status ≡ status_of (next req))
        × (error_recovery_middleware stamp other req h ≡ error_recovery_middleware stamp next req h)
  unfolding answer request_failed track_error
  error_recovery_middleware-replaces stamp next other req h failed same =
      let error = request_failed stamp (status_of (next req)) req in
      let tracked = (track_error error h).0 in
      (
        answer texts as_text error req.headers tracked,
        ap (λ r. r.2) (replaced_by stamp next req h failed),
        answer-status texts as_text error req.headers tracked,
        subst (λ st. error_recovery_middleware stamp other req h ≡ answered stamp req h st) same
              (replaced_by stamp other req h (ap is_error same ∙ failed))
            ∙ sym (replaced_by stamp next req h failed),
      )

  -- Any other response is passed on as it is, and nothing is counted.
  pub error_recovery_middleware-passes :
      (stamp : Stamp) (next : Request → Inner) (req : Request) (h : ErrorHandler)
      → is_error (status_of (next req)) ≡ false
      → error_recovery_middleware stamp next req h ≡ (h, none, passed (next req))
  unfolding error_recovery_middleware
  error_recovery_middleware-passes stamp next req h fine = rw (error_recovery_middleware, fine) refl
