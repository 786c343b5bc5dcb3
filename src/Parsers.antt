-- ===== src/Parsers.antt =====
-- src/ntulearn_skill/parsers: the options of a parser.
pub mod Models
