-- ===== src/Secrets.antt =====
-- x/secrets: identifiers, patterns, and how the second select the first.
pub mod Identifier
pub mod Pattern
pub mod Match
pub mod Expand
