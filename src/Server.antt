-- ===== src/Server.antt =====
-- src/server.c: the work of one event on one connection.
pub mod Transmit
pub mod Read
pub mod Response
pub mod Command
pub mod States
pub mod Machine
pub mod Event
