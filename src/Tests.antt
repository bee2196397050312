-- ===== src/Tests.antt =====
-- Runs of the code on concrete inputs, part by part, and the data that they share.
mod Fixtures
mod Wire
mod Packets
mod Connections
mod Clients
mod Servers
mod Services
mod Accounts
mod Sites
mod Requests
mod Listeners
mod Starts
mod Logins
