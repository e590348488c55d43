-- ===== src/Handler.antt =====
-- sope-appserver/mod_ngobjweb/handler.c: the request handler. `Guards` decides on the request,
-- `AppName` finds the name of the application in the URI, `Body` reads the request's body from the
-- client, `Connect` sets up the connection to the instance, `Request` sends it the head of the
-- request, `Response` passes its response on to the client with the headers that `Copy` copies,
-- `Converse` puts these together from the address on, and `Handle` is the whole.
pub mod AppName
pub mod Body
pub mod Connect
pub mod Copy
pub mod Request
pub mod Response
pub mod Guards
pub mod Converse
pub mod Handle
