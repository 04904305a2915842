-- ===== src/Settings.antt =====
-- Values of the configuration.
use my_pr_agent.Prelude.{List}
use my_pr_agent.Text.{Text}

-- A setting that is a list, or a text with commas.
pub data Several : Type 0 where
  listed : List Text → Several
  written : Text → Several
