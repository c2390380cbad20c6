-- ===== src/Examples.antt =====
-- Tests at concrete inputs, and the theorems applied at them.
mod Excerpts
mod Extraction
mod Sources
mod Pipelines
pub mod Bundles
mod Retrievals
mod Tokens
mod Tools
mod Networks
mod Completions
pub mod Briefs
mod Weights
pub mod Gazetteers
mod Researches
mod Embeddings
