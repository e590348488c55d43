-- ===== src/Scan.antt =====
-- sope-appserver/mod_ngobjweb/scanhttp.c: the parser of HTTP response lines and headers. `Source`
-- has its way of reading, `ResponseLine` and `Headers` are the two entry points; `View` shows that
-- they see only the stream of characters behind the descriptor.
pub mod Source
pub mod ResponseLine
pub mod Headers
pub mod View
pub mod Runs
pub mod RoundTrip
pub mod Status
pub mod Totality
pub mod Connected
