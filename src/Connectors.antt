-- ===== src/Connectors.antt =====
-- datarecon/infrastructure/connectors: how a connection becomes an engine or a connection string.
pub mod Tables
pub mod Engines
mod Tests
