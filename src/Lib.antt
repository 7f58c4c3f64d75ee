-- ===== src/Lib.antt =====
-- DataRecon: reconciliation of data between a source and a target, its connections, its saved test
-- suites and their schedules.
--
-- The program compares a source data frame with a target one by business keys, saves such
-- validations as test suites, and runs the suites unattended by cron schedules. A tick of the
-- scheduler asks the table of suites which ones are due, runs them through the suite service, and
-- the result of each run is written back to its row, which is what keeps it from being due again
-- in the same minute. The data come from saved connections, whose passwords are encrypted, through
-- the extraction service, and the rows that differ are searched for patterns.
--
-- Which file models which part:
--   Cron            datarecon/core/cron.py: `parse` is CronSchedule.parse, `parse_field`,
--                   `parse_piece`, `to_value` and `to_int` are the functions with an underscore in
--                   front; Cron/NextRuns has `next_runs`, Cron/Calendar the datetime arithmetic.
--   ColumnMatching  datarecon/core/column_matching.py, on lists of column names.
--   Engine          datarecon/core/engine/comparison_engine.py: Engine/Compare has `compare`,
--                   Engine/Prepare `_prepare`, Engine/Columns `_align_column_case` and
--                   `_resolve_compare_columns`, Engine/Equality `_column_equal`, Engine/Summary
--                   `_build_summary`. Engine/Pandas is the interface to pandas and its laws.
--   Domain          datarecon/domain/enums.py and the entities of datarecon/domain/entities;
--                   Domain/Databases has the types of connections.
--   Suites          datarecon/application/services/test_suite_service.py (Suites/Names and
--                   Suites/Service) and its table, sqlite_test_suite_repository.py of
--                   datarecon/infrastructure/persistence (Suites/Store).
--   Scheduler       datarecon/application/services/scheduler_service.py.
--   Projects        datarecon/application/services/project_service.py and the table of
--                   sqlite_project_repository.py, with the cascade of a deletion to suites.
--   Runs            the history of runs: Runs/Store is sqlite_validation_run_repository.py,
--                   Runs/Service run_recording.py and run_management_service.py, Runs/Dashboard
--                   dashboard_service.py, Runs/Batches part of reporting_service.py, all of
--                   datarecon/application/services but the first.
--   Schema          datarecon/application/services/schema_validation_service.py, with `execute` in
--                   Schema/Execute.
--   Referential     referential_integrity_service.py, and FullData full_data_validation_service.py
--                   of the same folder. What every `execute` has in common, the recording of the
--                   run and of its failure, is `perform` of Runs/Execution.
--
--   Connections     datarecon/application/services/connection_service.py (Connections/Service,
--                   with `_sanitize` in Connections/Secrets and `_validate` in Connections), its
--                   table, sqlite_connection_repository.py of datarecon/infrastructure/persistence
--                   (Connections/Store), and encrypt and decrypt of
--                   datarecon/infrastructure/security/crypto.py.
--   Connectors      datarecon/infrastructure/connectors/engine_factory.py: the URL and the
--                   arguments of each engine.
--   Extraction      datarecon/application/services/data_extraction_service.py.
--   SqlGeneration   sql_generation_service.py of the same folder: SqlGeneration/Quoting has
--                   `_Quoter`, SqlGeneration/Bulk the lists of tables.
--   Nullability     nullability_validation_service.py of the same folder.
--   Patterns        datarecon/core/mismatch_patterns.py: Patterns/Detectors and Patterns/Numeric
--                   have the detectors, Patterns/Analysis `analyse_mismatches`, Patterns/Blocks
--                   `analyse_row_set`, Patterns/Ranking the order of the patterns.
--
-- Prelude has the shared lemmas, the results with errors and rounding; PyText is Python's `str`
-- as lists of code points and its dicts as association lists.
--
-- State is passed explicitly: the table of suites is a list of rows, the clock a function of the
-- number of its readings. An exception is an `err`. A frame is its columns and its rows, and a row
-- is a function from column names to cells.
--
-- Loops recur on their data. Four count down: `next_runs` on the program's own limit of minutes,
-- the chunks of `_build_mismatch_frame` and the batches of `batch_frame` on the number of rows,
-- which is enough since each of them takes at least one, and the digits of a number on that number.
-- A percentage is an integer number of 0.0001 % (0.01 % on the dashboard), rounded to the nearest;
-- that the floating-point quotient rounds alike is assumed.
--
-- Not modelled: the web interface, the drivers of databases and files, mail and HTTP, and what
-- pandas, numpy, DuckDB, SQLite, SQLAlchemy and the cipher do inside, which are parameters; the
-- floats of the patterns are a parameter too. The validation services are parameters of the suite
-- service. Record counts, duplicates, aggregations and profiles are left out, as are ODBC and JDBC
-- strings and the layout of reports. `compare` is total: the errors that pandas raises in a merge
-- (suffixes that clash, keys of different types, repeated column labels) are left out. `perform` is
-- the try block of an `execute`; what a service checks before it is not part of it. How a database
-- reads an identifier is described in SqlGeneration/Quoting/Reader, where the folding of case and
-- the reserved words are parameters.
pub mod Prelude
pub mod PyText
pub mod Cron
pub mod Engine
pub mod ColumnMatching
pub mod Domain
pub mod Suites
pub mod Scheduler
pub mod Projects
pub mod Runs
pub mod Schema
pub mod FullData
pub mod Connections
pub mod Connectors
pub mod Patterns
pub mod Extraction
pub mod SqlGeneration
pub mod Nullability
pub mod Referential
