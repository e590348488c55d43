-- ===== src/Tests.antt =====
-- Runs of the model, and each theorem at an input that meets its hypotheses. `Peers` has a concrete
-- socket.
mod Peers
mod Reading
mod Writing
mod Scanning
mod Lookup
mod Settings
mod Tables
mod Transfer
mod Answering
mod Instances
mod Exchanging
mod Serving
mod Asking
mod Lookups
mod Buffers
mod Urls
mod Sets
mod Ahead
