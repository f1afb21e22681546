-- ===== src/Startup.antt =====
-- src/server.c: the start of the server, `main` with what it calls to listen.
pub mod Sockets
pub mod Listening
pub mod Attempts
pub mod Loop
pub mod Main
pub mod Data
pub mod Serves
