-- ===== src/Scan/View.antt =====
-- The parsers see no more of their source than the stream of characters that it yields: over any
-- source that reads a stream they compute what they compute over the list of its characters.
pub mod Rules
pub mod Parsers
