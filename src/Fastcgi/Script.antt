-- ===== src/Fastcgi/Script.antt =====
-- proxy/fastcgi.rs: `resolve_script_path`, which file runs for a path. The file system, and what the
-- code asks of a `PathBuf`, is the record `Paths`, looked at in one state.
use miwidothttp.Prelude.{
  ◌≡◌, refl, ◌⊎◌, inl, inr, Bool, true, false, not, ◌&&◌, Option, none, some, List, [], ◌∷◌, String,
  ◌=?◌, string_eq, if◌then◌else◌, arith, Bool-cases, Option-cases, subst,
}
use miwidothttp.Server.{trim_slashes}

pub record Paths (FilePath : Type 0) : Type 0 where
  pub join : FilePath → String → FilePath
  -- The text of a path with .php behind it.
  pub add_php : FilePath → FilePath
  pub extension : FilePath → Option String
  pub exists : FilePath → Bool
  pub is_dir : FilePath → Bool

pub data Resolved (FilePath : Type 0) : Type 0 where
  found : FilePath → Resolved FilePath
  not_a_script not_there : Resolved FilePath

module _ {FilePath : Type 0} (paths : Paths FilePath) where
  unfoldable pub is_php : FilePath → Bool
  is_php path = elim (paths.extension path) [ none ↦ false | some e ↦ e =? "php" ]

  -- The loop over the index files of a directory.
  unfoldable pub find_index : FilePath → List String → Option FilePath
  unfolding is_php
  find_index dir [] = none
  find_index dir (index ∷ rest) =
      let index_path = paths.join dir index in
      let later = find_index dir rest in
      if paths.exists index_path && is_php index_path then some index_path else later

  abbrev pub index_of : FilePath → List String → Option FilePath
  index_of path index_files = if paths.is_dir path then find_index path index_files else none

  -- What is tried where no index file is taken.
  unfoldable pub resolve_file : FilePath → Resolved FilePath
  unfolding is_php
  resolve_file path =
      if not (is_php path)
      then (if paths.exists (paths.add_php path) then found (paths.add_php path) else not_a_script)
      else (if not (paths.exists path) then not_there else found path)

  unfoldable pub resolve_script_path : FilePath → List String → String → Resolved FilePath
  unfolding trim_slashes find_index resolve_file
  resolve_script_path document_root index_files uri_path =
      let script_path = paths.join document_root (trim_slashes uri_path) in
      elim (index_of script_path index_files) [
        | some index_path ↦ found index_path
        | none ↦ resolve_file script_path
      ]

  -- A path that stands, and that is a script's by its extension or for having .php put behind it.
  abbrev pub IsScript : FilePath → Type 0
  IsScript path =
      (paths.exists path ≡ true)
      × ((is_php path ≡ true) ⊎ ((plain : FilePath) × (path ≡ paths.add_php plain)))

  find_index-IsScript :
      (dir path : FilePath) (index_files : List String)
      → find_index dir index_files ≡ some path
      → (paths.exists path ≡ true) × (is_php path ≡ true)
  unfolding find_index
  find_index-IsScript dir path [] h = ground (arith, h)
  find_index-IsScript dir path (index ∷ rest) h =
      ground (arith, h, find_index-IsScript dir path rest)

  resolve_file-IsScript : (tried path : FilePath) → resolve_file tried ≡ found path → IsScript path
  unfolding resolve_file
  resolve_file-IsScript tried path h = elim (Bool-cases (is_php tried)) [
    | inl script ↦ elim (Bool-cases (paths.exists tried)) [
      | inl there ↦
          let same : tried ≡ path = ground (arith, h, script, there) in
          subst IsScript same (there, inl script)
      | inr gone ↦ ground (arith, h, script, gone)
    ]
    | inr no_script ↦ elim (Bool-cases (paths.exists (paths.add_php tried))) [
      | inl there ↦
          let same : paths.add_php tried ≡ path = ground (arith, h, no_script, there) in
          subst IsScript same (there, inr (tried, refl))
      | inr gone ↦ ground (arith, h, no_script, gone)
    ]
  ]

  -- Whatever the path of a request is, a file that is to run stands, and its extension is php or it
  -- has .php behind another path.
  pub resolve_script_path-IsScript :
      (document_root : FilePath) (index_files : List String) (uri_path : String) (path : FilePath)
      → resolve_script_path document_root index_files uri_path ≡ found path
      → IsScript path
  unfolding resolve_script_path
  resolve_script_path-IsScript document_root index_files uri_path path h =
      let script_path = paths.join document_root (trim_slashes uri_path) in
      elim (Option-cases (index_of script_path index_files)) [
        | inl no_index ↦
            resolve_file-IsScript script_path path (rw (resolve_script_path, no_index) at h)
        | inr (index_path, e) ↦
            let index : find_index script_path index_files ≡ some index_path = ground (arith, e) in
            let (there, script) = find_index-IsScript script_path index_path index_files index in
            let same : index_path ≡ path = ground (arith, h, e) in
            subst IsScript same (there, inl script)
      ]

  -- Nothing keeps a path within the document root: any script that the file system reaches from it
  -- by a path runs, where that path is not of a directory.
  pub resolve_script_path-any_script :
      (document_root : FilePath) (index_files : List String) (uri_path : String)
      → let path = paths.join document_root (trim_slashes uri_path) in
        paths.is_dir path ≡ false
        → paths.exists path ≡ true
        → is_php path ≡ true
        → resolve_script_path document_root index_files uri_path ≡ found path
  unfolding resolve_script_path resolve_file
  resolve_script_path-any_script document_root index_files uri_path file there script =
      rw (resolve_script_path, file, resolve_file, script, there) refl
