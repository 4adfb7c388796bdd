-- ===== src/Temporal.antt =====
-- grace_mem/temporal: the resolution of time expressions against a reference time.
pub mod Calendar
pub mod Types
pub mod Classifier
pub mod Days
pub mod Spans
pub mod Results
pub mod Resolver
pub mod Normalizer
pub mod Augment
