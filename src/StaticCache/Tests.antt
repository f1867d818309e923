-- ===== src/StaticCache/Tests.antt =====
-- static_cache.rs: a file that changes after it was served.
use miwidothttp.Prelude.{◌≡◌, refl, none, some, List, [], ◌∷◌, String, pos, true, string_eq}
use miwidothttp.Prelude.Assoc.{insert}
use miwidothttp.StaticCache.{Disk, Bytes, new, serve_file, etag_text, load_file}
use miwidothttp.StaticCache.History.{Call, serve, run, answer, serve_file-run}

abbrev disk_with : Bytes → Disk String
disk_with bytes = record {
  open_file = λ path.
      some record { metadata = some record { len = 2; modified = some (pos 300) }; mapped = none };
  read = λ path. some bytes;
}

abbrev no_mime : String → String
no_mime path = "text/plain"

abbrev no_text : String → Bytes
no_text text = []

etag_run : etag_text 4097 300 ≡ "\"1001-12c\""
unfolding etag_text
etag_run = refl

abbrev history : List (Call String)
history = serve (disk_with (1 ∷ 2 ∷ [])) "a" ∷ serve (disk_with (3 ∷ 4 ∷ [])) "a" ∷ []

stale_run :
    (serve_file no_mime no_text
      (disk_with (5 ∷ 6 ∷ []))
      "a"
      (run no_mime no_text history (new true))).1.body
    ≡ 1 ∷ 2 ∷ []
unfolding serve_file run new insert
stale_run = refl

serve_file-run_example :
    (serve_file no_mime no_text
      (disk_with (5 ∷ 6 ∷ []))
      "a"
      (run no_mime no_text history (new true))).1
    ≡ answer no_mime no_text (
        some record {
          content = 1 ∷ 2 ∷ [];
          mime_type = "text/plain";
          etag = "\"2-12c\"";
          last_modified = 300;
        })
unfolding load_file
serve_file-run_example = serve_file-run no_mime no_text true history (disk_with (5 ∷ 6 ∷ [])) "a"
