-- ===== src/Runs.antt =====
-- The history of validation runs: its table, and the operations on many runs at once.
-- `Store` is sqlite_validation_run_repository.py, `Service` run_recording.py and
-- run_management_service.py, `Dashboard` dashboard_service.py, `Batches` the batches and the file
-- names of reporting_service.py.
pub mod Store
pub mod Service
pub mod Execution
pub mod Dashboard
pub mod Batches
mod Tests
