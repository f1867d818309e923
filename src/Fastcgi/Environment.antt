-- ===== src/Fastcgi/Environment.antt =====
-- proxy/fastcgi.rs: `build_params`, the parameters that a script gets. A header's value that cannot be
-- read as text, `as_text`, is left out.
use miwidothttp.Prelude.{
  ◌≡◌, refl, sym, ◌∙◌, Bool, true, false, Option, none, some, List, [], ◌∷◌, String, append_text,
  unwrap_or, replace, to_uppercase, starts_with, ◌=?◌, string_eq, if◌then◌else◌, arith,
  Option-cases, inl, inr,
}
use text.Mathlib.TextEquality.{eq_iff, starts_with_iff}
use text.Mathlib.TextLemmas.{prefix-append}
use miwidothttp.Prelude.Assoc.{lookup, insert, lookup-insert}

-- What `build_params` reads of a request.
pub record Request : Type 0 where
  pub method : String
  pub path : String
  pub uri : String
  pub query : Option String
  pub headers : List (String × String)

-- Insertions, one after another.
unfoldable pub insert_all : List (String × String) → List (String × String) → List (String × String)
insert_all [] params = params
insert_all ((name, value) ∷ rest) params = insert_all rest (insert name value params)

unfoldable pub header_param : String → String
unfolding to_uppercase replace
header_param name = append_text "HTTP_" (replace (to_uppercase name) "-" "_")

-- The parameter of a header, where the request has it and it can be read.
unfoldable pub insert_some :
    String → Option String → List (String × String) → List (String × String)
insert_some name none params = params
insert_some name (some value) params = insert name value params

-- The parameters up to the name of the server, and those of the server and the client.
abbrev pub own_params : String → String → Request → List (String × String)
own_params document_root script_path req =
    ("REQUEST_METHOD", req.method)
    ∷ ("SCRIPT_FILENAME", script_path)
    ∷ ("SCRIPT_NAME", req.path)
    ∷ ("REQUEST_URI", req.uri)
    ∷ ("DOCUMENT_URI", req.path)
    ∷ ("DOCUMENT_ROOT", document_root)
    ∷ ("SERVER_PROTOCOL", "HTTP/1.1")
    ∷ ("GATEWAY_INTERFACE", "CGI/1.1")
    ∷ ("SERVER_SOFTWARE", "miwidothttp/1.0")
    ∷ ("QUERY_STRING", unwrap_or req.query "")
    ∷ []

abbrev pub remote_params : List (String × String)
remote_params = ("SERVER_PORT", "80") ∷ ("REMOTE_ADDR", "127.0.0.1") ∷ ("REMOTE_PORT", "0") ∷ []

module _ (as_text : String → Option String) where
  -- The text of a header.
  unfoldable pub header_text : String → List (String × String) → Option String
  unfolding lookup
  header_text name headers = elim (lookup name headers) [ none ↦ none | some v ↦ as_text v ]

  unfoldable pub add_headers :
      List (String × String) → List (String × String) → List (String × String)
  unfolding header_param
  add_headers [] params = params
  add_headers ((name, value) ∷ headers) params = elim (as_text value) [
    | none ↦ add_headers headers params
    | some text ↦ add_headers headers (insert (header_param name) text params)
  ]

  unfoldable pub build_params :
      (document_root : String) (custom : List (String × String)) (script_path : String)
      → Request
      → List (String × String)
  unfolding insert_all header_text add_headers insert_some
  build_params document_root custom script_path req =
      let own = insert_all (own_params document_root script_path req) [] in
      let host = unwrap_or (header_text "host" req.headers) "localhost" in
      let remote = insert_all remote_params (insert "SERVER_NAME" host own) in
      let headed = add_headers req.headers remote in
      let typed = insert_some "CONTENT_TYPE" (header_text "content-type" req.headers) headed in
      let sized = insert_some "CONTENT_LENGTH" (header_text "content-length" req.headers) typed in
      insert_all custom (insert "PHP_SELF" req.path sized)

  -- The names whose parameters the headers of a request are to have a say in.
  abbrev pub is_of_headers : String → Bool
  is_of_headers name =
      if starts_with name "HTTP_"
      then true
      else if name =? "SERVER_NAME"
      then true
      else if name =? "CONTENT_TYPE"
      then true
      else name =? "CONTENT_LENGTH"

  -- Two lists of parameters agree on a name.
  abbrev Agree : String → List (String × String) → List (String × String) → Type 0
  Agree name ps qs = lookup name ps ≡ lookup name qs

  insert-Agree :
      (name key value : String) (ps qs : List (String × String))
      → Agree name ps qs
      → Agree name (insert key value ps) (insert key value qs)
  insert-Agree name key value ps qs h =
      ground (arith, lookup-insert key name value ps, lookup-insert key name value qs, h)

  insert_all-Agree :
      (name : String) (rest ps qs : List (String × String))
      → Agree name ps qs
      → Agree name (insert_all rest ps) (insert_all rest qs)
  unfolding insert_all
  insert_all-Agree name [] ps qs h = h
  insert_all-Agree name ((key, value) ∷ rest) ps qs h =
      insert_all-Agree name rest (insert key value ps) (insert key value qs)
        (insert-Agree name key value ps qs h)

  insert-other :
      (name key value : String) (ps : List (String × String))
      → (key =? name) ≡ false
      → Agree name (insert key value ps) ps
  insert-other name key value ps h = ground (arith, lookup-insert key name value ps, h)

  insert_some-other :
      (name key : String) (o : Option String) (ps : List (String × String))
      → (key =? name) ≡ false
      → Agree name (insert_some key o ps) ps
  unfolding insert_some
  insert_some-other name key none ps h = refl
  insert_some-other name key (some value) ps h = insert-other name key value ps h

  header_param-ne :
      (header name : String)
      → starts_with name "HTTP_" ≡ false
      → (header_param header =? name) ≡ false
  unfolding header_param
  header_param-ne header name h = ground (
    arith,
    eq_iff (header_param header) name,
    (starts_with_iff (header_param header) "HTTP_").1 (prefix-append "HTTP_" _),
    h,
  )

  add_headers-other :
      (name : String) (headers ps : List (String × String))
      → starts_with name "HTTP_" ≡ false
      → Agree name (add_headers headers ps) ps
  unfolding add_headers
  add_headers-other name [] ps h = refl
  add_headers-other name ((header, value) ∷ headers) ps h = elim (Option-cases (as_text value)) [
    | inl unread ↦ rw (add_headers, unread) (add_headers-other name headers ps h)
    | inr (text, e) ↦
        rw (add_headers, e)
          (add_headers-other name headers (insert (header_param header) text ps) h
            ∙ insert-other name (header_param header) text ps (header_param-ne header name h))
  ]

  header_names-ne :
      (name : String)
      → is_of_headers name ≡ false
      → (starts_with name "HTTP_" ≡ false)
        × (("SERVER_NAME" =? name) ≡ false)
        × (("CONTENT_TYPE" =? name) ≡ false)
        × (("CONTENT_LENGTH" =? name) ≡ false)
  header_names-ne name h = (
    ground (arith, h),
    ground (arith, h, eq_iff name "SERVER_NAME", eq_iff "SERVER_NAME" name),
    ground (arith, h, eq_iff name "CONTENT_TYPE", eq_iff "CONTENT_TYPE" name),
    ground (arith, h, eq_iff name "CONTENT_LENGTH", eq_iff "CONTENT_LENGTH" name),
  )

  -- The headers of a request have no say in a parameter but SERVER_NAME, CONTENT_TYPE,
  -- CONTENT_LENGTH and those whose names begin with HTTP_: any other is the same for any other headers,
  -- so that no header changes the script that runs, its root, the method or the remote address.
  pub build_params-headers :
      (document_root : String) (custom : List (String × String)) (script_path : String)
      (req : Request) (headers : List (String × String)) (name : String)
      → is_of_headers name ≡ false
      → lookup name (build_params document_root custom script_path req)
        ≡ lookup name
            (build_params document_root custom script_path (record req { headers = headers }))
  unfolding build_params
  build_params-headers document_root custom script_path req headers name h =
      let (no_prefix, no_server, no_type, no_length) = header_names-ne name h in
      let own = insert_all (own_params document_root script_path req) [] in
      let host = λ (hs : List (String × String)). unwrap_or (header_text "host" hs) "localhost" in
      let plain = λ (hs : List (String × String)) (ps : List (String × String)).
        insert_some-other name "CONTENT_LENGTH" (header_text "content-length" hs) _ no_length
        ∙ insert_some-other name "CONTENT_TYPE" (header_text "content-type" hs) _ no_type
        ∙ add_headers-other name hs ps no_prefix in
      let servers =
        insert_all-Agree name remote_params (insert "SERVER_NAME" (host req.headers) own)
          (insert "SERVER_NAME" (host headers) own)
          (insert-other name "SERVER_NAME" (host req.headers) own no_server
            ∙ sym (insert-other name "SERVER_NAME" (host headers) own no_server)) in
      insert_all-Agree name custom _ _ (
        insert-Agree name "PHP_SELF" req.path _ _
          (plain req.headers _ ∙ servers ∙ sym (plain headers _)))
