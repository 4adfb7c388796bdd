-- ===== src/Tests.antt =====
-- Concrete runs of the development's definitions, by the part of the program that they exercise.
mod Agent
mod Ingestion
mod Retrieval
mod Rows
mod Temporal
mod Evidence
mod Rewriting
