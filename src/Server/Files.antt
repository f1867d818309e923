-- ===== src/Server/Files.antt =====
-- main.rs: which files are served to a host that has no backend.
use miwidothttp.Prelude.{◌≡◌, true, false, none, some, Eq, string_eq, arith}
use miwidothttp.Prelude.Assoc.{lookup}
use miwidothttp.Cache.{or_else}
use miwidothttp.StaticCache.{CachedFile, load_file, serve_file, build_response}
use miwidothttp.Server.{
  AppState, Environment, FileSystem, Request, proxy_handler, serve_static, trim_slashes,
}

module _ {FilePath Child : Type 0} ⦃e : Eq FilePath⦄ (env : Environment FilePath)
    (now later : FileSystem FilePath) (req : Request) (s : AppState FilePath Child)
    (file : CachedFile) where
  -- For a host without a backend, the static directory joined with the path as it stands names the
  -- file that is served: whatever file that is, wherever it lies, its content is the answer, where it is
  -- not in the cache and can be loaded.
  pub proxy_handler-any_file :
      (found : FilePath)
      → now.join s.static_dir (trim_slashes req.path) ≡ found
      → lookup req.host s.config.backends ≡ none
      → now.exists found ≡ true
      → now.is_file found ≡ true
      → lookup found s.static_cache.cache ≡ none
      → load_file env.mime s.static_cache.use_mmap later.disk found ≡ some file
      → (proxy_handler env now later req s).2 ≡ build_response file
  unfolding proxy_handler serve_static serve_file
  proxy_handler-any_file found named host there is_file uncached loaded =
      ground (arith, named, host, there, is_file, uncached, loaded)

  -- For a host without a backend, a path that names nothing is answered with the static directory's
  -- index.html and the status 200, where that is there and can be loaded or is in the cache.
  pub proxy_handler-missing :
      (index : FilePath)
      → now.join s.static_dir "index.html" ≡ index
      → lookup req.host s.config.backends ≡ none
      → now.exists (now.join s.static_dir (trim_slashes req.path)) ≡ false
      → now.is_dir (now.join s.static_dir (trim_slashes req.path)) ≡ false
      → now.exists index ≡ true
      → or_else
          (lookup index s.static_cache.cache)
          (load_file env.mime s.static_cache.use_mmap later.disk index)
        ≡ some file
      → ((proxy_handler env now later req s).2 ≡ build_response file)
        × ((proxy_handler env now later req s).2.status ≡ 200)
  unfolding proxy_handler serve_static serve_file build_response
  proxy_handler-missing index named host missing no_dir there held =
      ground (arith, named, host, missing, no_dir, there, held)
