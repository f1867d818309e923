-- ===== src/Fastcgi/Http.antt =====
-- proxy/fastcgi.rs: `parse_http_response`, which makes the output of a script a status, headers and a
-- body. A text is a list of characters by their codes. `decode` is `String::from_utf8_lossy`,
-- `encode` is `str::as_bytes`, and `from_u16` is `StatusCode::from_u16` of the crate http.
use miwidothttp.Prelude.{
  ℕ, ◌<◌, ◌+◌, ◌-◌, ◌*◌, ◌≡◌, refl, sym, subst, ◌↔◌, ◌⊎◌, inl, inr, Bool, true, false, ◌&&◌, Option,
  none, some, List, [], ◌∷◌, ◌++◌, map, leb, ◌==◌, drop, length, is_empty, if◌then◌else◌, Eq, ◌≢◌,
  Bool-cases, arith, All, unwrap_or, Option-cases,
}
use miwidothttp.Prelude.Assoc.{insert}
use miwidothttp.Fastcgi.{
  ok, err, build_packet, chunks, send_chunks, fcgi_stdout, fcgi_end_request, read_response,
}
use miwidothttp.Fastcgi.Response.{read_response_roundtrip}
use miwidothttp.Proxy.Protocol.{is_whitespace, words_from, same_bytes, begins}

pub same_bytes_iff : (xs ys : List ℕ) → (same_bytes xs ys ≡ true) ↔ (xs ≡ ys)
same_bytes_iff [] [] = ground arith
same_bytes_iff [] (y ∷ ys) = ground arith
same_bytes_iff (x ∷ xs) [] = ground arith
same_bytes_iff (x ∷ xs) (y ∷ ys) = ground (arith, same_bytes_iff xs ys)

instance abbrev pub characters_eq : Eq (List ℕ)
characters_eq = record { test = same_bytes; test_iff = same_bytes_iff }

-- "\r\n\r\n", ":" and "status".
abbrev pub blank_line : List ℕ
blank_line = 13 ∷ 10 ∷ 13 ∷ 10 ∷ []

abbrev pub colon : List ℕ
colon = 58 ∷ []

abbrev pub status_name : List ℕ
status_name = 115 ∷ 116 ∷ 97 ∷ 116 ∷ 117 ∷ 115 ∷ []

abbrev pub put_before : ℕ → Option (List ℕ × List ℕ) → Option (List ℕ × List ℕ)
put_before c none = none
put_before c (some (before, after)) = some (c ∷ before, after)

-- `split_once`, and `splitn` with the limit 2, by a separator that is not empty.
unfoldable pub split_once : List ℕ → List ℕ → Option (List ℕ × List ℕ)
split_once [] sep = none
split_once (c ∷ cs) sep =
    let later = put_before c (split_once cs sep) in
    if begins (c ∷ cs) sep then some ([], drop (length sep) (c ∷ cs)) else later

unfoldable pub trim_start : List ℕ → List ℕ
trim_start [] = []
trim_start (c ∷ cs) = let rest = trim_start cs in if is_whitespace c then rest else c ∷ cs

unfoldable pub trim_end : List ℕ → List ℕ
trim_end [] = []
trim_end (c ∷ cs) =
    let rest = trim_end cs in if is_whitespace c && is_empty rest then [] else c ∷ rest

unfoldable pub trim : List ℕ → List ℕ
unfolding trim_start trim_end
trim cs = trim_end (trim_start cs)

-- The carriage return at the end of a line.
abbrev pub strip_return : List ℕ → List ℕ
strip_return [] = []
strip_return (c ∷ []) = if c == 13 then [] else c ∷ []
strip_return (c ∷ d ∷ cs) = c ∷ strip_return (d ∷ cs)

-- `lines`, with the line that has begun. A last line without an end keeps its carriage return.
unfoldable pub lines_from : List ℕ → List ℕ → List (List ℕ)
lines_from [] [] = []
lines_from (b ∷ bs) [] = (b ∷ bs) ∷ []
lines_from begun (c ∷ cs) =
    let next = lines_from [] cs in
    let same = lines_from (begun ++ c ∷ []) cs in
    if c == 10 then strip_return begun ∷ next else same

-- `to_lowercase`, which is compared with an ASCII word alone: the only characters whose lower case
-- has a letter of that word are the letter and its upper case.
abbrev pub to_lower : ℕ → ℕ
to_lower c = if leb 65 c && leb c 90 then c + 32 else c

-- `parse::<u16>`: an optional plus sign, then digits, at most 65535.
unfoldable pub digits : ℕ → List ℕ → Option ℕ
digits n [] = some n
digits n (c ∷ cs) =
    let more = digits (n * 10 + (c - 48)) cs in
    if leb 48 c && leb c 57 && leb (n * 10 + (c - 48)) 65535 then more else none

abbrev pub digits_some : List ℕ → Option ℕ
digits_some [] = none
digits_some (c ∷ cs) = digits 0 (c ∷ cs)

unfoldable pub parse_u16 : List ℕ → Option ℕ
unfolding digits
parse_u16 [] = none
parse_u16 (c ∷ cs) = if c == 43 then digits_some cs else digits 0 (c ∷ cs)

-- The first word of a text.
abbrev pub first_word : List (List ℕ) → Option (List ℕ)
first_word [] = none
first_word (word ∷ words) = some word

begins-drop : (xs ys : List ℕ) → begins xs ys ≡ true → ys ++ drop (length ys) xs ≡ xs
begins-drop xs [] h = refl
begins-drop [] (y ∷ ys) h = ground (arith, h)
begins-drop (x ∷ xs) (y ∷ ys) h = ground (arith, h, begins-drop xs ys)

begins-append : (xs ys : List ℕ) → begins (xs ++ ys) xs ≡ true
begins-append [] ys = ground arith
begins-append (x ∷ xs) ys = ground (arith, begins-append xs ys)

-- The text before the separator, the separator and the text after it make the whole.
pub split_once-some :
    (cs sep before after : List ℕ)
    → split_once cs sep ≡ some (before, after)
    → before ++ (sep ++ after) ≡ cs
unfolding split_once
split_once-some [] sep before after h = ground (arith, h)
split_once-some (c ∷ cs) sep before after h = elim (Bool-cases (begins (c ∷ cs) sep)) [
  | inl here ↦ ground (arith, begins-drop (c ∷ cs) sep here, h, here)
  | inr later ↦ elim (Option-cases (split_once cs sep)) [
    | inl missing ↦ ground (arith, h, later, missing)
    | inr ((before', after'), e) ↦
        ground (arith, h, later, e, split_once-some cs sep before' after' e)
  ]
]

-- A text that holds the separator is split.
pub split_once-append :
    (before : List ℕ) (s : ℕ) (sep after : List ℕ)
    → split_once (before ++ ((s ∷ sep) ++ after)) (s ∷ sep) ≢ none
unfolding split_once
split_once-append [] s sep after h = ground (arith, h, begins-append (s ∷ sep) after)
split_once-append (c ∷ before) s sep after h =
    elim (Option-cases (split_once (before ++ ((s ∷ sep) ++ after)) (s ∷ sep))) [
      | inl missing ↦ split_once-append before s sep after missing
      | inr ((before', after'), e) ↦
          ground (arith, h, e, Bool-cases (begins (c ∷ before ++ ((s ∷ sep) ++ after)) (s ∷ sep)))
    ]

-- The variables of the loop over the lines.
pub record Head : Type 0 where
  pub status : ℕ
  pub headers : List (List ℕ × List ℕ)

unfoldable pub is_status : List ℕ → Bool
is_status key = same_bytes (map to_lower key) status_name

module _ (from_u16 : ℕ → Option ℕ) where
  -- The status of a header Status, whose value is trimmed.
  unfoldable pub read_status : List ℕ → ℕ → ℕ
  unfolding words_from parse_u16
  read_status value status = elim (first_word (words_from [] value)) [
    | none ↦ status
    | some code_str ↦ elim (parse_u16 code_str) [
      | none ↦ status
      | some code ↦ unwrap_or (from_u16 code) 200
    ]
  ]

  unfoldable pub read_line : List ℕ → Head → Head
  unfolding split_once trim is_status read_status insert
  read_line line h = elim (split_once line colon) [
    | none ↦ h
    | some (key, value) ↦
        if is_status (trim key)
        then record h { status = read_status (trim value) h.status }
        else record h { headers = insert (trim key) (trim value) h.headers }
  ]

  unfoldable pub read_lines : List (List ℕ) → Head → Head
  unfolding read_line
  read_lines [] h = h
  read_lines (line ∷ lines) h = read_lines lines (read_line line h)

  -- The loop over the lines of a head.
  abbrev pub read_head : List ℕ → Head
  read_head headers_str =
      read_lines (lines_from [] headers_str) (record { status = 200; headers = [] })

  -- No header is named Status, in any case, and the status is 200 or one that `from_u16` gives.
  abbrev pub IsHead : Head → Type 0
  IsHead h =
      All (λ (e : List ℕ × List ℕ). is_status e.0 ≡ false) h.headers
      × ((h.status ≡ 200) ⊎ ((code : ℕ) × (from_u16 code ≡ some h.status)))

  insert-NoStatus :
      (key value : List ℕ) (hs : List (List ℕ × List ℕ))
      → is_status key ≡ false
      → All (λ (e : List ℕ × List ℕ). is_status e.0 ≡ false) hs
      → All (λ (e : List ℕ × List ℕ). is_status e.0 ≡ false) (insert key value hs)
  unfolding insert
  insert-NoStatus key value [] e h = (e, h)
  insert-NoStatus key value ((found, old) ∷ hs) e h =
      ground (arith, insert-NoStatus key value hs e h.1)

  read_status-Known :
      (value : List ℕ) (status : ℕ)
      → (status ≡ 200) ⊎ ((code : ℕ) × (from_u16 code ≡ some status))
      → (read_status value status ≡ 200)
        ⊎ ((code : ℕ) × (from_u16 code ≡ some (read_status value status)))
  unfolding read_status
  read_status-Known value status h = elim (Option-cases (first_word (words_from [] value))) [
    | inl no_word ↦ rw (read_status, no_word) h
    | inr (word, is_word) ↦ elim (Option-cases (parse_u16 word)) [
      | inl no_code ↦ rw (read_status, is_word, no_code) h
      | inr (code, is_code) ↦ elim (Option-cases (from_u16 code)) [
        | inl unknown ↦ inl (rw (read_status, is_word, is_code, unknown) refl)
        | inr (found, is_found) ↦ inr (code, rw (read_status, is_word, is_code, is_found) refl)
      ]
    ]
  ]

  read_line-IsHead : (line : List ℕ) (h : Head) → IsHead h → IsHead (read_line line h)
  unfolding read_line
  read_line-IsHead line h holds = elim (Option-cases (split_once line colon)) [
    | inl unsplit ↦ rw (read_line, unsplit) holds
    | inr ((key, value), e) ↦ elim (Bool-cases (is_status (trim key))) [
      | inl is_it ↦
          rw (read_line, e, is_it) (holds.0, read_status-Known (trim value) h.status holds.1)
      | inr not_it ↦
          rw (read_line, e, not_it)
            (insert-NoStatus (trim key) (trim value) h.headers not_it holds.0, holds.1)
    ]
  ]

  read_lines-IsHead : (lines : List (List ℕ)) (h : Head) → IsHead h → IsHead (read_lines lines h)
  unfolding read_lines
  read_lines-IsHead [] h holds = holds
  read_lines-IsHead (line ∷ lines) h holds =
      read_lines-IsHead lines (read_line line h) (read_line-IsHead line h holds)

  module _ (decode encode : List ℕ → List ℕ) where
    unfoldable pub parse_http_response : List ℕ → Option (Head × List ℕ)
    unfolding split_once
    parse_http_response bytes = elim (split_once (decode bytes) blank_line) [
      | none ↦ none
      | some (headers_str, body) ↦ some (read_head headers_str, encode body)
    ]

    -- Whatever a script sends, no header of the response is named Status, in any case, and its status
    -- is 200 or one that `from_u16` gives.
    pub parse_http_response-IsHead :
        (bytes : List ℕ) (h : Head) (body : List ℕ)
        → parse_http_response bytes ≡ some (h, body)
        → IsHead h
    unfolding parse_http_response
    parse_http_response-IsHead bytes h body e =
        elim (Option-cases (split_once (decode bytes) blank_line)) [
          | inl unsplit ↦ ground (arith, e, unsplit)
          | inr ((head, text), split) ↦
              let same : read_head head ≡ h = ground (arith, e, split) in
              subst IsHead same (
                read_lines-IsHead (lines_from [] head) (record { status = 200; headers = [] })
                  (_, inl refl))
        ]

    -- The response is refused exactly where its text holds no blank line, and else its body is all
    -- that follows one of them.
    pub parse_http_response_lem :
        (bytes : List ℕ)
        → ((parse_http_response bytes ≡ none)
            × ((head text : List ℕ) → decode bytes ≢ head ++ (blank_line ++ text)))
          ⊎ ((h : Head) × (head : List ℕ) × (text : List ℕ) × (parse_http_response bytes
                ≡ some (h, encode text))
              × (decode bytes ≡ head ++ (blank_line ++ text)))
    unfolding parse_http_response
    parse_http_response_lem bytes = elim (Option-cases (split_once (decode bytes) blank_line)) [
      | inl unsplit ↦ inl (
        rw (parse_http_response, unsplit) refl,
        λ head text found.
            split_once-append head 13 (10 ∷ 13 ∷ 10 ∷ []) text
              (subst (λ t. split_once t blank_line ≡ none) found unsplit),
      )
      | inr ((head, text), split) ↦ inr (
        read_head head,
        head,
        text,
        rw (parse_http_response, split) refl,
        sym (split_once-some (decode bytes) blank_line head text split),
      )
    ]

    -- `read_response` as a whole: the loop over the records, and then its output as a response. The
    -- error of either is none.
    unfoldable pub read_http_response : ℕ → List ℕ → Option (Head × List ℕ)
    unfolding parse_http_response
    read_http_response request_id stream = elim (read_response request_id stream) [
      | err e ↦ none
      | ok (c, rest) ↦ parse_http_response c.stdout_data
    ]

    -- The output of a script that is cut into chunks, sent in STDOUT records and closed by END_REQUEST,
    -- for a request id and a closing body that fit 16 bits, is refused exactly where its text holds no
    -- blank line; otherwise it gives a response whose body is all that follows one of them, in which no
    -- header is named Status, in any case, and whose status is 200 or one that `from_u16` gives.
    pub read_http_response-sent :
        (id : ℕ) (bytes body rest : List ℕ)
        → id < 65536
        → length body < 65536
        → let stream =
            send_chunks fcgi_stdout id (chunks (length bytes) bytes)
            ++ (build_packet fcgi_end_request id body ++ rest) in
          ((read_http_response id stream ≡ none)
            × ((head text : List ℕ) → decode bytes ≢ head ++ (blank_line ++ text)))
          ⊎ ((h : Head) × (head : List ℕ) × (text : List ℕ) × (read_http_response id stream
                ≡ some (h, encode text))
              × (decode bytes ≡ head ++ (blank_line ++ text))
              × IsHead h)
    unfolding read_http_response
    read_http_response-sent id bytes body rest fits body_fits =
        let sent = read_response_roundtrip id bytes body rest fits body_fits in
        elim (parse_http_response_lem bytes) [
          | inl (refused, no_blank) ↦ inl (rw (read_http_response, sent) refused, no_blank)
          | inr (h, head, text, parsed, split) ↦ inr (
            h,
            head,
            text,
            rw (read_http_response, sent) parsed,
            split,
            parse_http_response-IsHead bytes h (encode text) parsed,
          )
        ]
