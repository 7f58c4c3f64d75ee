-- ===== src/Engine.antt =====
-- datarecon/core/engine/comparison_engine.py: the comparison of two frames on business keys.
-- `Pandas` holds the data of the frames and the library calls that the engine makes, `Config` its
-- configuration and errors, `Columns` the alignment and choice of columns, `Prepare` the checks on
-- one side, `Compare` the comparison itself, and `Summary` its figures.
pub mod Pandas
pub mod Config
pub mod Columns
pub mod Prepare
pub mod Equality
pub mod Summary
pub mod Compare
pub mod Keys
pub mod Join
pub mod Totals
pub mod Chunks
pub mod Tests
