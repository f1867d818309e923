-- ===== src/Supervisor/Environment.antt =====
-- process.rs: the variables that a started process is given.
use miwidothttp.Prelude.{
  ◌≡◌, refl, Bool, true, false, Bool-cases, inl, inr, Option, none, some, List, [], ◌∷◌, String,
  starts_with, unwrap_or, ◌=?◌, string_eq, if◌then◌else◌, arith,
}
use miwidothttp.Prelude.Assoc.{lookup, insert, lookup-insert, KeysDiffer}
use miwidothttp.Supervisor.{ProcessConfig, set_env, is_custom, default_java_opts, tomcat_env}

abbrev pub or_else : Option String → Option String → Option String
or_else none other = other
or_else (some v) other = some v

lookup-set_env :
    (wanted : String → Bool) (vars env : List (String × String)) (k : String)
    → KeysDiffer vars
    → lookup k (set_env wanted vars env)
      ≡ (if wanted k then or_else (lookup k vars) (lookup k env) else lookup k env)
unfolding set_env lookup
lookup-set_env wanted [] env k h = ground arith
lookup-set_env wanted ((key, value) ∷ rest) env k h =
    let either = lookup-set_env wanted rest (insert key value env) k h.1 in
    let without = lookup-set_env wanted rest env k h.1 in
    elim (Bool-cases (wanted key)) [
      | inl on ↦
          rw on (
            ground
              (arith, either, h.0, on, lookup-insert key k value env, string_eq.test_iff key k))
      | inr off ↦ rw off (ground (arith, without, h.0, off, string_eq.test_iff key k))
    ]

-- The variables that the start itself sets.
abbrev own : (home base java_home opts k : String) → Option String
own home base java_home opts k =
    if k =? "CATALINA_HOME"
    then some home
    else (if k =? "CATALINA_BASE"
        then some base
        else (if k =? "JAVA_HOME"
            then some java_home
            else (if k =? "JAVA_OPTS" then some opts else none)))

=?-swap : (x y : String) → (x =? y) ≡ (y =? x)
=?-swap x y = ground (arith, string_eq.test_iff x y, string_eq.test_iff y x)

lookup-own :
    (home base java_home opts k : String)
    → lookup k (
        insert "JAVA_OPTS" opts (
          insert "JAVA_HOME" java_home
            (insert "CATALINA_BASE" base (insert "CATALINA_HOME" home []))))
      ≡ own home base java_home opts k
unfolding lookup insert
lookup-own home base java_home opts k = ground (
  arith,
  =?-swap k "CATALINA_HOME",
  =?-swap k "CATALINA_BASE",
  =?-swap k "JAVA_HOME",
  =?-swap k "JAVA_OPTS",
  string_eq.test_iff k "CATALINA_HOME",
  string_eq.test_iff k "CATALINA_BASE",
  string_eq.test_iff k "JAVA_HOME",
  string_eq.test_iff k "JAVA_OPTS",
)

begins_with :
    (k name : String) (b : Bool)
    → starts_with name "CATALINA_" ≡ b
    → (k =? name) ≡ true
    → starts_with k "CATALINA_" ≡ b
begins_with k name b h same = rw ((string_eq.test_iff k name).0 same) h

-- A Tomcat process, where the configuration has one value for each variable, is given these
-- variables: its own directories, JAVA_HOME and JAVA_OPTS as the configuration or the default says;
-- no other that begins with CATALINA_; and each other variable of the configuration.
pub tomcat_env_lem :
    (home java_home : String) (config : ProcessConfig) (k : String)
    → KeysDiffer config.env
    → lookup k (tomcat_env home java_home config) ≡ (
        if k =? "CATALINA_HOME"
        then some home
        else (if k =? "CATALINA_BASE"
            then some (unwrap_or (lookup "CATALINA_BASE" config.env) home)
            else (if k =? "JAVA_HOME"
                then some java_home
                else (if k =? "JAVA_OPTS"
                    then some (unwrap_or (lookup "JAVA_OPTS" config.env) default_java_opts)
                    else (if starts_with k "CATALINA_" then none else lookup k config.env)))))
unfolding tomcat_env lookup
tomcat_env_lem home java_home config k h =
    let base = unwrap_or (lookup "CATALINA_BASE" config.env) home in
    let opts = unwrap_or (lookup "JAVA_OPTS" config.env) default_java_opts in
    let set =
      lookup-set_env is_custom config.env
        (insert "JAVA_OPTS" opts (
          insert "JAVA_HOME" java_home
            (insert "CATALINA_BASE" base (insert "CATALINA_HOME" home []))))
        k h in
    ground (
      arith,
      set,
      lookup-own home base java_home opts k,
      begins_with k "CATALINA_HOME" true refl,
      begins_with k "CATALINA_BASE" true refl,
      begins_with k "JAVA_HOME" false refl,
      begins_with k "JAVA_OPTS" false refl,
    )
