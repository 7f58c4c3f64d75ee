-- ===== src/Suites/Names.antt =====
-- `prefixed_name` of test_suite_service.py: the code of its module stands before a suite's name.
pub mod Laws
use datarecon_ai_community_e.Prelude.{List, [], ◌∷◌, ◌++◌, if◌then◌else◌, drop, length}
use datarecon_ai_community_e.PyText.{Text, Unicode, text, strip, casefold, starts_with}
use datarecon_ai_community_e.Domain.{ValidationModule, code}

-- f"{module.code}_"
abbrev pub prefix : ValidationModule → Text
prefix m = code m ++ text "_"

module _ (u : Unicode) where
  unfoldable pub prefixed_name : ValidationModule → Text → Text
  prefixed_name m name =
      if starts_with (casefold u (strip name)) (casefold u (prefix m))
      then prefix m ++ drop (length (prefix m)) (strip name)
      else prefix m ++ strip name
