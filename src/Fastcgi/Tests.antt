-- ===== src/Fastcgi/Tests.antt =====
-- proxy/fastcgi.rs: records at concrete inputs.
use miwidothttp.Prelude.Assoc.{lookup, insert}
use miwidothttp.Server.{trim_slashes}
use miwidothttp.Fastcgi.Script.{
  IsScript, resolve_script_path-IsScript, Paths, found, not_a_script, resolve_script_path,
  find_index, resolve_file, is_php,
}
use miwidothttp.Fastcgi.Http.{
  Head, IsHead, blank_line, read_http_response, read_http_response-sent, parse_http_response,
  read_lines, lines_from,
}
use miwidothttp.Fastcgi.Environment.{Request, build_params, build_params-headers}
use miwidothttp.Prelude.{
  ℕ, List, length, ◌≢◌, ◌⊎◌, ◌≡◌, refl, String, string_eq, Option, none, some, append_text,
  contains, map, ◌=?◌, if◌then◌else◌, [], ◌∷◌, ◌++◌, arith,
}
use miwidothttp.Fastcgi.{
  ok, Collected, build_packet, begin_request, read_records, read_response, fcgi_stdout, fcgi_stderr,
  fcgi_end_request, chunks, send_chunks, encode_params, encode_length, send_request,
}
use miwidothttp.Fastcgi.Params.{decode_params, decode_params-encode_params}
use miwidothttp.Fastcgi.Response.{read_response_roundtrip, foreign_record_injects}

abbrev empty : Collected
empty = record { stdout_data = []; stderr_data = [] }

-- One parameter A = 1, and a body of one byte: BEGIN_REQUEST, PARAMS, PARAMS, STDIN, STDIN.
request :
    send_request 1 ((65 ∷ [], 49 ∷ []) ∷ []) (7 ∷ [])
    ≡ 1 ∷ 1 ∷ 0 ∷ 1 ∷ 0 ∷ 8 ∷ 0 ∷ 0 ∷ 0 ∷ 1 ∷ 0 ∷ 0 ∷ 0 ∷ 0 ∷ 0 ∷ 0 ∷ 1 ∷ 4 ∷ 0 ∷ 1 ∷ 0 ∷ 4 ∷ 4 ∷ 0
      ∷ 1 ∷ 1 ∷ 65 ∷ 49 ∷ 0 ∷ 0 ∷ 0 ∷ 0 ∷ 1 ∷ 4 ∷ 0 ∷ 1 ∷ 0 ∷ 0 ∷ 0 ∷ 0 ∷ 1 ∷ 5 ∷ 0 ∷ 1 ∷ 0 ∷ 1 ∷ 7
      ∷ 0 ∷ 7 ∷ 0 ∷ 0 ∷ 0 ∷ 0 ∷ 0 ∷ 0 ∷ 0 ∷ 1 ∷ 5 ∷ 0 ∷ 1 ∷ 0 ∷ 0 ∷ 0 ∷ 0 ∷ []
unfolding send_request encode_length
request = refl

-- BEGIN_REQUEST is the packet of its eight bytes.
begin : begin_request 1 ≡ build_packet 1 1 (0 ∷ 1 ∷ 0 ∷ 0 ∷ 0 ∷ 0 ∷ 0 ∷ 0 ∷ [])
unfolding begin_request build_packet
begin = refl

decode_params-encode_params_example :
    decode_params 1 (encode_params ((65 ∷ 66 ∷ [], 49 ∷ []) ∷ []))
    ≡ some ((65 ∷ 66 ∷ [], 49 ∷ []) ∷ [])
decode_params-encode_params_example =
    decode_params-encode_params ((65 ∷ 66 ∷ [], 49 ∷ []) ∷ []) (omega arith)

read_response_roundtrip_example :
    read_response 1 (
      send_chunks fcgi_stdout 1 (chunks 3 (7 ∷ 8 ∷ 9 ∷ []))
      ++ (build_packet fcgi_end_request 1 (0 ∷ []) ++ 4 ∷ []))
    ≡ ok (record { stdout_data = 7 ∷ 8 ∷ 9 ∷ []; stderr_data = [] }, 4 ∷ [])
read_response_roundtrip_example =
    read_response_roundtrip 1 (7 ∷ 8 ∷ 9 ∷ []) (0 ∷ []) (4 ∷ []) (omega arith) (omega arith)

foreign_record_injects_example :
    read_records 3 1
      (build_packet fcgi_stderr 2 (build_packet fcgi_stdout 1 (5 ∷ [])) ++ 6 ∷ [])
      empty
    ≡ read_records 1 1 (6 ∷ []) (record { stdout_data = 5 ∷ []; stderr_data = [] })
foreign_record_injects_example =
    foreign_record_injects 1 fcgi_stderr 1 2 (5 ∷ []) (6 ∷ []) empty (omega arith) (omega arith)
      (omega arith) (omega arith)

abbrev as_is : String → Option String
as_is value = some value

abbrev asked : Request
asked = record {
  method = "GET";
  path = "/a.php";
  uri = "/a.php?x=1";
  query = some "x=1";
  headers = ("proxy", "http://evil") ∷ ("accept-language", "de") ∷ [];
}

-- A header Proxy gives the script the variable HTTP_PROXY.
http_proxy_run :
    lookup "HTTP_PROXY" (build_params as_is "/srv" [] "/srv/a.php" asked) ≡ some "http://evil"
unfolding build_params lookup insert
http_proxy_run = refl

build_params-headers_example :
    lookup "SCRIPT_FILENAME" (build_params as_is "/srv" [] "/srv/a.php" asked)
    ≡ lookup "SCRIPT_FILENAME"
        (build_params as_is "/srv" [] "/srv/a.php" (record asked { headers = [] }))
build_params-headers_example =
    build_params-headers as_is "/srv" [] "/srv/a.php" asked [] "SCRIPT_FILENAME" refl

-- A header Status in any case gives the status; the header A is kept, and the body has all that
-- follows the first blank line. The line z has no colon.
parse_run :
    parse_http_response some
      (λ bytes. bytes)
      (λ text. text)
      (115 ∷ 84 ∷ 97 ∷ 116 ∷ 117 ∷ 115 ∷ 32 ∷ 58 ∷ 32 ∷ 43 ∷ 52 ∷ 48 ∷ 52 ∷ 32 ∷ 120 ∷ 13 ∷ 10 ∷ 65
        ∷ 58 ∷ 32 ∷ 98 ∷ 13 ∷ 10 ∷ 122 ∷ 10 ∷ 13 ∷ 10 ∷ 13 ∷ 10 ∷ 104 ∷ 13 ∷ 10 ∷ 13 ∷ 10 ∷ [])
    ≡ some
        (record { status = 404; headers = (65 ∷ [], 98 ∷ []) ∷ [] }, 104 ∷ 13 ∷ 10 ∷ 13 ∷ 10 ∷ [])
unfolding parse_http_response read_lines lines_from
parse_run = refl

-- Without a blank line there is no response.
unparsed_run :
    parse_http_response some (λ bytes. bytes) (λ text. text) (65 ∷ 58 ∷ 13 ∷ 10 ∷ []) ≡ none
unfolding parse_http_response
unparsed_run = refl

-- A file system with the directory /srv, its index.php and two files beside it.
abbrev disk : Paths String
disk = record {
  join = λ dir name. append_text dir (append_text "/" name);
  add_php = λ path. append_text path ".php";
  extension =
      λ path. if contains ("/srv/../b.php" ∷ "/srv//index.php" ∷ []) path then some "php" else none;
  exists =
      λ path. contains ("/srv/" ∷ "/srv//index.php" ∷ "/srv/../b.php" ∷ "/srv/a.php" ∷ []) path;
  is_dir = λ path. path =? "/srv/";
}

resolve_runs :
    map
      (resolve_script_path disk "/srv" ("index.html" ∷ "index.php" ∷ []))
      ("/" ∷ "/a" ∷ "/logo.png" ∷ "//../b.php" ∷ [])
    ≡ found "/srv//index.php" ∷ found "/srv/a.php" ∷ not_a_script ∷ found "/srv/../b.php" ∷ []
unfolding resolve_script_path find_index resolve_file is_php trim_slashes
resolve_runs = refl

abbrev as_is_text : List ℕ → List ℕ
as_is_text text = text

abbrev output : List ℕ
output = 65 ∷ 58 ∷ 32 ∷ 98 ∷ 13 ∷ 10 ∷ 13 ∷ 10 ∷ 104 ∷ 105 ∷ []

read_http_response-sent_example :
    let stream =
      send_chunks fcgi_stdout 1 (chunks (length output) output)
      ++ (build_packet fcgi_end_request 1 (0 ∷ []) ++ 4 ∷ []) in
    ((read_http_response some as_is_text as_is_text 1 stream ≡ none)
      × ((head text : List ℕ) → output ≢ head ++ (blank_line ++ text)))
    ⊎ ((h : Head) × (head : List ℕ) × (text : List ℕ) × (read_http_response some as_is_text
            as_is_text 1 stream
          ≡ some (h, text))
        × (output ≡ head ++ (blank_line ++ text))
        × IsHead some h)
read_http_response-sent_example =
    read_http_response-sent some as_is_text as_is_text 1 output (0 ∷ []) (4 ∷ []) (omega arith)
      (omega arith)

resolved_plain : resolve_script_path disk "/srv" [] "/a" ≡ found "/srv/a.php"
unfolding resolve_script_path find_index resolve_file is_php trim_slashes
resolved_plain = refl

resolve_script_path-IsScript_example : IsScript disk "/srv/a.php"
resolve_script_path-IsScript_example =
    resolve_script_path-IsScript disk "/srv" [] "/a" "/srv/a.php" resolved_plain
