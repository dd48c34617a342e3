-- ===== src/Tests.antt =====
-- Runs on concrete inputs.
mod World
mod Machines
mod Service
mod Network
mod Metrics
mod Names
mod Zkvm
mod Startup
mod Http
mod Reads
mod Witness
mod Dashboard
mod Page
mod Clients
mod Wires
mod Api
