-- ===== src/ApacheRewrite/Presets.antt =====
-- rewrite_engine.rs: the rules that `RewriteConfig` makes itself.
use miwidothttp.Prelude.{none, [], ◌∷◌, ◌++◌, String, append_text, replace}
use miwidothttp.ApacheRewrite.{RewriteConfig, l_flag, r301_flag}

module _ {Regex : Type 0} where
  unfoldable pub new_config : RewriteConfig Regex
  new_config = record { rules = []; conditions = [] }

  pub add_remove_trailing_slash : RewriteConfig Regex → RewriteConfig Regex
  add_remove_trailing_slash c = record c {
    rules =
        c.rules
        ++ record {
          pattern = "^(.+)/$";
          replacement = "$1";
          flags = r301_flag ∷ l_flag ∷ [];
          regex = none;
        }
          ∷ [];
  }

  unfoldable pub add_force_www : String → RewriteConfig Regex → RewriteConfig Regex
  add_force_www domain c = record {
    rules =
        c.rules
        ++ record {
          pattern = "^(.*)$";
          replacement = append_text "https://www." (append_text domain "$1");
          flags = r301_flag ∷ l_flag ∷ [];
          regex = none;
        }
          ∷ [];
    conditions =
        c.conditions
        ++ record {
          test_string = "%{HTTP:Host}";
          pattern = append_text "^" (append_text (replace domain "." "\\.") "$");
          flags = [];
          regex = none;
        }
          ∷ [];
  }

  pub add_force_https : RewriteConfig Regex → RewriteConfig Regex
  add_force_https c = record {
    rules =
        c.rules
        ++ record {
          pattern = "^(.*)$";
          replacement = "https://%{HTTP:Host}$1";
          flags = r301_flag ∷ l_flag ∷ [];
          regex = none;
        }
          ∷ [];
    conditions =
        c.conditions
        ++ record {
          test_string = "%{HTTP:X-Forwarded-Proto}";
          pattern = "^http$";
          flags = [];
          regex = none;
        }
          ∷ [];
  }

  -- The second rule puts .html back.
  pub add_clean_urls : RewriteConfig Regex → RewriteConfig Regex
  add_clean_urls c = record c {
    rules =
        c.rules
        ++ record {
          pattern = "^(.+)\\.html$";
          replacement = "$1";
          flags = r301_flag ∷ l_flag ∷ [];
          regex = none;
        }
          ∷ record {
            pattern = "^([^.]+)$";
            replacement = "$1.html";
            flags = l_flag ∷ [];
            regex = none;
          }
          ∷ [];
  }
