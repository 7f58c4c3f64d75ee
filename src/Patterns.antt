-- ===== src/Patterns.antt =====
-- datarecon/core/mismatch_patterns.py: why the rows of a mismatch frame differ.
-- Patterns/Series has the columns of the frame and the helpers that pair them, Patterns/Detectors and
-- Patterns/Numeric the detectors, Patterns/Ranking the patterns and their order, Patterns/Analysis the
-- analysis of a frame, and Patterns/Blocks `analyse_row_set`.
pub mod Formats
pub mod Floats
pub mod Series
pub mod Detectors
pub mod Numeric
pub mod Ranking
pub mod Analysis
pub mod Blocks
pub mod Laws
mod Tests
