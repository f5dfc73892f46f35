-- ===== src/Load.antt =====
-- The orchestration of a load in src/lib.rs: Config has the load definition and what its blocks
-- resolve to, Directive the schema directive and the pinned schema file, Ports the
-- interface of the connectors, Run the load of a valid definition, Definition the execution of any,
-- and Report the report.
pub mod Config
pub mod Directive
pub mod Ports
pub mod Run
pub mod Definition
pub mod Report
