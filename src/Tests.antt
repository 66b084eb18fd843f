-- ===== src/Tests.antt =====
-- Runs of the model and of its theorems at concrete inputs.
mod Reading
mod Writing
mod Messages
mod Trees
mod Rows
mod Insertions
mod Serving
mod Storage
mod Clients
mod Daemons
mod Workers
mod Queue
