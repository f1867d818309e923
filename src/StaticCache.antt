-- ===== src/StaticCache.antt =====
-- static_cache.rs (src/static_cache.rs): `StaticCache`, the files that have been served. Paths are a
-- type with equality. A `Disk` is what the calls on the file system give while a file is loaded; the
-- guess of a MIME type is the crate's, `mime`, whose types are values that a header takes. Where two
-- tasks load one file at a time, the later insertion stays: both are the operation `store`.
use miwidothttp.Prelude.{
  ℕ, zero, suc, ◌+◌, ◌/◌, ◌%◌, Bool, true, false, ◌&&◌, Option, none, some, List, [], ◌∷◌, String,
  append_text, ltb, Eq, ℤ, pos, negsuc, if◌then◌else◌, ◌>>=◌,
}
use Prim.Native.String.{slice}
use miwidothttp.Prelude.Assoc.{lookup, insert}
use miwidothttp.Rewrite.{decimal_text}
pub mod History
mod Tests

abbrev pub Bytes : Type 0
Bytes = List ℕ

pub record CachedFile : Type 0 where
  pub content : Bytes
  pub mime_type : String
  pub etag : String
  pub last_modified : ℕ

-- The time of the last change is in seconds from the start of 1970.
pub record Metadata : Type 0 where
  pub len : ℕ
  pub modified : Option ℤ

pub record OpenFile : Type 0 where
  pub metadata : Option Metadata
  pub mapped : Option Bytes

pub record Disk (FilePath : Type 0) : Type 0 where
  pub open_file : FilePath → Option OpenFile
  pub read : FilePath → Option Bytes

pub record Response : Type 0 where
  pub status : ℕ
  pub headers : List (String × String)
  pub body : Bytes

-- `duration_since(UNIX_EPOCH).unwrap_or_default().as_secs()`.
abbrev pub since_epoch : ℤ → ℕ
since_epoch (pos n) = n
since_epoch (negsuc n) = 0

-- `format!("{:x}", n)`, on fuel above n.
hex : ℕ → ℕ → String
hex zero n = ""
hex (suc fuel) n =
    let rest = hex fuel (n / 16) in
    let digit = slice "0123456789abcdef" (n % 16) (n % 16 + 1) in
    if ltb n 16 then digit else append_text rest digit

unfoldable pub hex_text : ℕ → String
unfolding hex
hex_text n = hex (n + 1) n

unfoldable pub etag_text : ℕ → ℕ → String
unfolding hex_text
etag_text len modified =
    append_text "\""
      (append_text (hex_text len) (append_text "-" (append_text (hex_text modified) "\"")))

unfoldable pub build_response : CachedFile → Response
unfolding decimal_text
build_response cached = record {
  status = 200;
  headers =
      ("content-type", cached.mime_type)
      ∷ ("etag", cached.etag)
      ∷ ("cache-control", "public, max-age=3600")
      ∷ ("last-modified", decimal_text cached.last_modified)
      ∷ [];
  body = cached.content;
}

-- `text` is the text's bytes.
unfoldable pub not_found : (text : String → Bytes) → Response
not_found text = record { status = 404; headers = []; body = text "404 Not Found" }

pub record StaticCache (FilePath : Type 0) : Type 0 where
  pub cache : List (FilePath × CachedFile)
  pub use_mmap : Bool

module _ {FilePath : Type 0} where
  unfoldable pub new : Bool → StaticCache FilePath
  new use_mmap = record { cache = []; use_mmap = use_mmap }

  unfoldable pub load_file :
      (mime : FilePath → String) (use_mmap : Bool) → Disk FilePath → FilePath → Option CachedFile
  unfolding etag_text
  load_file mime use_mmap disk path = do
    file ← disk.open_file path
    metadata ← file.metadata
    time ← metadata.modified
    content ← if use_mmap && ltb 4096 metadata.len then file.mapped else disk.read path
    some record {
      content = content;
      mime_type = mime path;
      etag = etag_text metadata.len (since_epoch time);
      last_modified = since_epoch time;
    }

  unfoldable pub clear_cache : StaticCache FilePath → StaticCache FilePath
  clear_cache c = record c { cache = [] }

module _ {FilePath : Type 0} ⦃e : Eq FilePath⦄ where
  -- What a task does once it has loaded a file.
  unfoldable pub store : FilePath → CachedFile → StaticCache FilePath → StaticCache FilePath
  store path file c = record c { cache = insert path file c.cache }

  unfoldable pub serve_file :
      (mime : FilePath → String) (text : String → Bytes)
      → Disk FilePath
      → FilePath
      → StaticCache FilePath
      → StaticCache FilePath × Response
  unfolding build_response load_file store not_found lookup
  serve_file mime text disk path c = elim (lookup path c.cache) [
    | some cached ↦ (c, build_response cached)
    | none ↦ elim (load_file mime c.use_mmap disk path) [
      | some file ↦ (store path file c, build_response file)
      | none ↦ (c, not_found text)
    ]
  ]
