-- ===== src/Descriptor.antt =====
-- sope-appserver/mod_ngobjweb/NGBufferedDescriptor.c: a socket with a read and a write buffer.
-- `State` has the structure and its life cycle, `Input` the reading side, `Output` the writing
-- side, `Header` the printing of one header line.
pub mod State
pub mod Input
pub mod Output
pub mod Header
pub mod Keep
