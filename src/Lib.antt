-- ===== src/Lib.antt =====
-- Data Spark loads one CSV or JSONL source into one destination dataset. A load reads its source
-- twice (src/connector.rs): the first pass decides the schema (src/schema.rs) and streams the
-- rejected records to an artifact (src/rejection.rs), and the second pass streams the surviving
-- records in chunks to the destination's writer, through the dispatcher (src/dispatch.rs) and the
-- retry engine (src/retry.rs). src/lib.rs composes the load and src/main.rs is the command line.
--
-- How the files correspond to the code:
--   Failure, LoadMode  the failure types, write facts and load modes of src/connector.rs and
--                      `LoadFailure` of src/lib.rs
--   Json               `serde_json::Value`
--   Retry              src/retry.rs: `run_unit` over an operation and a sleeper that are functions
--                      on the state of the world; Run, Backoff, Sort and Report are its theory
--   Dispatch           src/dispatch.rs: Session has its types, Serial `run_serial_write_phase`,
--                      Window `run_windowed_write_phase` and Phase `run_write_phase`
--   Schema             src/schema.rs: Types, TypeName, Decimal, Timestamp, Observe, Fit, Misfit,
--                      Record, Check and Directive (the checks that a load imposes); Pinned the
--                      pinned schema file, Override and Transform the configuration, Columns
--                      `resolve_transform`, Shape `match_shape` and, in its child, the conflicts
--                      of overrides, Plan the field plans and decisions, Resolve `resolve_plan`,
--                      Observer the observers of the first pass, Column and Chunk
--                      `build_text_array`, `build_json_array` and `ChunkPlan`;
--                      `RejectedRecord` of src/rejection.rs stands in Record
--   Execution, Load    src/lib.rs: `ExecutionFailure`; Config the definition's blocks, Directive
--                      `resolve_schema_directive`, Run `execute_supported_load`, Definition
--                      `execute_load_definition`, Report the report; Ports is the interface that
--                      the connectors of src/connector.rs fill
--   Rejection          src/rejection.rs: the sink, the spill and their merge
--   Connector          src/connector.rs: Source has `csv_item` and `jsonl_line_record`, Hash
--                      `HashState`, FirstPass `read_csv` and `read_jsonl`, Chunks the iterators
--                      `CsvChunks` and `JsonlChunks`
--   SqlServer          src/sqlserver.rs: `create_table_ddl` and `ColumnType`; Plan `BulkRowPlan::new`;
--                      Table `TableShape::validate` of src/sqlserver/table.rs
--   Examples           the theorems at concrete inputs
--
-- State is passed explicitly: what Rust changes through `&mut` is an argument and a component of
-- the result. The world outside (files, databases, threads, the clock) is a type parameter, and
-- what the code calls there is a function argument: the writer, the sleeper, the calendar of
-- chrono, the float parser, serde_json's parser and rendering, the csv crate, Arrow's checks of a
-- column and of a batch, the file system. A YAML text is of a type parameter, between which and the
-- raw pinned schema file serde_yaml stands. Texts that are parsed
-- are lists of the bytes of their UTF-8. Native numbers stand for the machine words; where a word
-- saturates, is checked or wraps, that is written out (the backoff, the `i128` of decimals, the
-- `i64` of timestamps, the hash, the count of the records written).
--
-- Threads: `run_windowed_write_phase` is modelled from the thread that dispatches. Which slot
-- completes next, and with what, is an arbitrary function of what is in flight.
--
-- Fuel: the retry loop has a round for each attempt of the policy, the windowed loop a round for
-- each chunk and one more, and draining a second pass two calls more than there are items.
--
-- The chunks of a read are the items that its lazy iterator yields: when the write phase asks for
-- them is not seen, nor what it does to the file meanwhile.
--
-- Not modelled: what `run_load` does to the file system and the clock; the sessions of the
-- DuckDB, Parquet and SQL Server destinations, whose work is SQL and file-system calls, with the
-- values that SQL Server is sent and the decoding of its catalog; and the command line.
pub mod Prelude
pub mod Json
pub mod Failure
pub mod LoadMode
pub mod Retry
pub mod Dispatch
pub mod Schema
pub mod Execution
pub mod Rejection
pub mod Connector
pub mod Load
pub mod SqlServer
pub mod Examples
