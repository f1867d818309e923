-- ===== src/ErrorHandler/Secrecy.antt =====
-- error.rs: what an answer tells of an error.
use miwidothttp.Prelude.{
  ℕ, ◌≡◌, ◌⊎◌, inl, inr, Bool, true, false, Option, some, List, String, is_some, Option-cases,
  Bool-cases, ==_iff, nat_eq, arith,
}
use miwidothttp.Prelude.Assoc.{lookup, lookup-insert}
use miwidothttp.ErrorHandler.{
  AppError, ErrorHandler, ErrorConfig, Texts, production, new, custom_templates, with_defaults,
  or_insert, json_error_response, render_generic_error, html_error_response, html, render_template,
}

-- Two errors that look alike from outside.
pub record AreAlike (a b : AppError) : Type 0 where
  pub same_id : a.id ≡ b.id
  pub same_status : a.status ≡ b.status
  pub same_code : a.code ≡ b.code
  pub same_time : a.timestamp ≡ b.timestamp

-- In production and without show_details, the JSON answer and the generic page tell nothing of an
-- error but its id, status, code and time: two errors that have these in common, whatever their
-- messages, details, sources and contexts, are answered alike.
pub production-secret :
    (texts : Texts) (config : ErrorConfig) (a b : AppError)
    → config.mode ≡ production
    → config.show_details ≡ false
    → AreAlike a b
    → (json_error_response texts config a ≡ json_error_response texts config b)
      × (render_generic_error texts config a ≡ render_generic_error texts config b)
unfolding json_error_response render_generic_error
production-secret texts config a b mode hidden alike = (
  ground (arith, mode, hidden, alike.same_id, alike.same_status, alike.same_code, alike.same_time),
  ground (arith, mode, hidden, alike.same_id, alike.same_status),
)

-- The statuses that always have a page.
abbrev pub HasPage : ℕ → Type 0
HasPage status = (status ≡ 404) ⊎ (status ≡ 500) ⊎ (status ≡ 503)

or_insert_self :
    (status : ℕ) (page : String) (templates : List (ℕ × String))
    → is_some (lookup status (or_insert status page templates)) ≡ true
unfolding or_insert
or_insert_self status page templates = elim (Bool-cases (is_some (lookup status templates))) [
  | inl there ↦ rw there there
  | inr missing ↦
      rw missing (ground (arith, lookup-insert status status page templates, ==_iff status status))
]

or_insert-keeps :
    (status other : ℕ) (page : String) (templates : List (ℕ × String))
    → is_some (lookup other templates) ≡ true
    → is_some (lookup other (or_insert status page templates)) ≡ true
unfolding or_insert
or_insert-keeps status other page templates h =
    ground (arith, lookup-insert status other page templates, ==_iff status other)

with_defaults-HasPage :
    (texts : Texts) (status : ℕ) (templates : List (ℕ × String))
    → HasPage status
    → is_some (lookup status (with_defaults texts templates)) ≡ true
unfolding with_defaults
with_defaults-HasPage texts status templates (inl e) = rw e (
    or_insert-keeps 503 404 texts.page_503 _
      (or_insert-keeps 500 404 texts.page_500 _ (or_insert_self 404 texts.page_404 templates)))
with_defaults-HasPage texts status templates (inr (inl e)) =
    rw e (or_insert-keeps 503 500 texts.page_503 _ (or_insert_self 500 texts.page_500 _))
with_defaults-HasPage texts status templates (inr (inr e)) =
    rw e (or_insert_self 503 texts.page_503 _)

new-templates :
    (texts : Texts) (exists : String → String → Bool) (read : String → String → Option String)
    (config : ErrorConfig) (h : ErrorHandler)
    → new texts exists read config ≡ some h
    → (loaded : List (ℕ × String)) × (h.templates ≡ with_defaults texts loaded)
unfolding new
new-templates texts exists read config h made =
    elim (Option-cases (custom_templates exists read config)) [
      | inl failed ↦ absurd (ground (arith, failed, made))
      | inr (loaded, e) ↦ (loaded, ground (arith, e, made))
    ]

-- In HTML, a new handler answers an error of status 404, 500 or 503 by a template that is filled with
-- its message and its details, and the answer stays the same under any other configuration of the
-- handler: neither the mode, be it production or maintenance, nor show_details has a say.
pub html_error_response-template :
    (texts : Texts) (exists : String → String → Bool) (read : String → String → Option String)
    (config other : ErrorConfig) (h : ErrorHandler) (error : AppError)
    → new texts exists read config ≡ some h
    → HasPage error.status
    → (template : String) × (html_error_response texts (record h { config = other }) error
        ≡ record { status = error.status; body = html (render_template texts template error) })
unfolding html_error_response
html_error_response-template texts exists read config other h error made page =
    let (loaded, e) = new-templates texts exists read config h made in
    let there = with_defaults-HasPage texts error.status loaded page in
    elim (Option-cases (lookup error.status h.templates)) [
      | inl missing ↦ absurd (ground (arith, e, there, missing))
      | inr (template, found) ↦ (template, ground (arith, found))
    ]
