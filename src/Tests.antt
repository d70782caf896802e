-- ===== src/Tests.antt =====
-- Runs of the models on small inputs: tests, and examples of the theorems.
mod Publishing
mod Ports
mod Workers
mod Activations
mod Requests
mod Sources
mod Messages
mod Databases
mod Commands
