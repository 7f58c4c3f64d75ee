-- ===== src/Suites.antt =====
-- datarecon/application/services/test_suite_service.py: saved test suites and their re-runs.
-- `Names` has `prefixed_name`, `Store` the table of suites, `Service` the service's operations.
pub mod Names
pub mod Store
pub mod Service
pub mod Tests
