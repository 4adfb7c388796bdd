-- ===== src/Evidence.antt =====
-- grace_mem/retrieval/evidence: the ranking of the evidence candidates and the lookup of raw turns.
pub mod Cut
pub mod Raw
