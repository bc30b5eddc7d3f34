-- ===== src/Client.antt =====
-- connclient/src/conn_client.cpp: the client, in modules for its state, the intervals of its
-- relinks, what it sends and closes, its connecting, what it reads, the loop of its net thread, and
-- the calls of the main thread.
pub mod State
pub mod Send
pub mod Relink
pub mod Connect
pub mod Ping
pub mod Read
pub mod Link
pub mod Loop
pub mod Api
pub mod System
pub mod Blocking
pub mod Log
