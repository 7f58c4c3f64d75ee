-- ===== src/Patterns/Analysis/Laws.antt =====
-- About `_explain_column` of mismatch_patterns.py.
use datarecon_ai_community_e.Patterns.Floats.{Floats}
use datarecon_ai_community_e.Patterns.Series.{Series}
