-- ===== src/Tests.antt =====
-- Runs of the definitions at small inputs.
mod Requests
mod Targets
mod Configs
mod Responses
mod Scripts
mod Servers
mod Machines
mod Loops
mod Clients
mod Serving
mod Served
mod Cut
