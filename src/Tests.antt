-- ===== src/Tests.antt =====
-- A small network for the examples: the client and the server of WatDFS on one machine each, and a
-- library that runs the server's handlers; and the examples of the theorems.
mod Link
mod Regular
mod Downloads
mod WriteBacks
mod Fetches
mod Multiples
mod Locks
mod Servers
mod Clients
mod Transfers
