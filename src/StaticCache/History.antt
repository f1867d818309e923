-- ===== src/StaticCache/History.antt =====
-- static_cache.rs: what is served along a history of requests, while the files change.
use miwidothttp.Prelude.{
  ◌≡◌, refl, Bool, Option, none, some, List, [], ◌∷◌, String, Eq, ◌=?◌, if◌then◌else◌, arith,
  Option-cases, inl, inr,
}
use miwidothttp.Prelude.Assoc.{lookup, lookup-insert}
use miwidothttp.Cache.{or_else}
use miwidothttp.StaticCache.{
  Disk, CachedFile, StaticCache, Response, Bytes, new, load_file, serve_file, clear_cache, store,
  build_response, not_found,
}

-- What a task asks of the cache, with the disk as it is then.
pub data Call (FilePath : Type 0) : Type 0 where
  serve : Disk FilePath → FilePath → Call FilePath
  clear : Call FilePath

module _ {FilePath : Type 0} ⦃e : Eq FilePath⦄ (mime : FilePath → String)
    (text : String → Bytes) where
  unfoldable pub run : List (Call FilePath) → StaticCache FilePath → StaticCache FilePath
  run [] c = c
  run (serve disk path ∷ calls) c = run calls (serve_file mime text disk path c).0
  run (clear ∷ calls) c = run calls (clear_cache c)

  -- The first version of a file that could be loaded, from one that is held and after the last
  -- clearing.
  abbrev pub first_version :
      Bool → FilePath → Option CachedFile → List (Call FilePath) → Option CachedFile
  first_version mmap path held [] = held
  first_version mmap path held (clear ∷ calls) = first_version mmap path none calls
  first_version mmap path held (serve disk other ∷ calls) =
      first_version mmap path
        (if other =? path then or_else held (load_file mime mmap disk path) else held) calls

  -- What is answered for a version, or for none.
  abbrev pub answer : Option CachedFile → Response
  answer none = not_found text
  answer (some file) = build_response file

  serve_file-use_mmap :
      (disk : Disk FilePath) (path : FilePath) (c : StaticCache FilePath)
      → (serve_file mime text disk path c).0.use_mmap ≡ c.use_mmap
  unfolding serve_file store
  serve_file-use_mmap disk path c = ground arith

  lookup-serve_file :
      (disk : Disk FilePath) (other path : FilePath) (c : StaticCache FilePath)
      → lookup path (serve_file mime text disk other c).0.cache ≡ (
          if other =? path
          then or_else (lookup path c.cache) (load_file mime c.use_mmap disk path)
          else lookup path c.cache)
  unfolding serve_file store
  lookup-serve_file disk other path c = elim (Option-cases (lookup other c.cache)) [
    | inr (held, found) ↦ rw (serve_file, found) (ground (arith, found, e.test_iff other path))
    | inl absent ↦ elim (Option-cases (load_file mime c.use_mmap disk other)) [
      | inl missing ↦
          rw (serve_file, absent, missing) (ground (arith, absent, missing, e.test_iff other path))
      | inr (file, loaded) ↦
          rw (serve_file, absent, loaded)
            (ground
              (arith, absent, loaded, e.test_iff other path, lookup-insert other path file c.cache))
    ]
  ]

  run-use_mmap :
      (calls : List (Call FilePath)) (c : StaticCache FilePath)
      → (run calls c).use_mmap ≡ c.use_mmap
  unfolding run clear_cache
  run-use_mmap [] c = refl
  run-use_mmap (serve disk path ∷ calls) c =
      rw (run-use_mmap calls (serve_file mime text disk path c).0) (serve_file-use_mmap disk path c)
  run-use_mmap (clear ∷ calls) c = run-use_mmap calls (clear_cache c)

  lookup-run :
      (path : FilePath) (calls : List (Call FilePath)) (c : StaticCache FilePath)
      → lookup path (run calls c).cache ≡ first_version c.use_mmap path (lookup path c.cache) calls
  unfolding run clear_cache lookup
  lookup-run path [] c = refl
  lookup-run path (serve disk other ∷ calls) c = rw (
    lookup-run path calls (serve_file mime text disk other c).0,
    serve_file-use_mmap disk other c,
    lookup-serve_file disk other path c,
  )
  lookup-run path (clear ∷ calls) c = lookup-run path calls (clear_cache c)

  serve_file-answer :
      (disk : Disk FilePath) (path : FilePath) (c : StaticCache FilePath)
      → (serve_file mime text disk path c).1
        ≡ answer (or_else (lookup path c.cache) (load_file mime c.use_mmap disk path))
  unfolding serve_file
  serve_file-answer disk path c = ground arith

  -- Whatever requests and clearings a new cache has had, and however the files have changed between,
  -- a file is answered as it was when it could first be loaded after the last clearing; one that never
  -- could is loaded now, and is not found where that fails.
  pub serve_file-run :
      (use_mmap : Bool) (calls : List (Call FilePath)) (disk : Disk FilePath) (path : FilePath)
      → (serve_file mime text disk path (run calls (new use_mmap))).1
        ≡ answer
            (or_else (first_version use_mmap path none calls) (load_file mime use_mmap disk path))
  unfolding new lookup
  serve_file-run use_mmap calls disk path = rw (
    serve_file-answer disk path (run calls (new use_mmap)),
    lookup-run path calls (new use_mmap),
    run-use_mmap calls (new use_mmap),
  )
