-- ===== src/Assembler.antt =====
-- internal/assembler/: bundles for dossiers are assembled from the database.
pub mod Graph
pub mod Tables
pub mod Bundle
