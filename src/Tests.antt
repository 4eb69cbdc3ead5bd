-- ===== src/Tests.antt =====
-- The development at concrete inputs.
mod Toy
mod Arrivals
mod Activities
mod Parts
mod Workers
mod Ciphers
mod Nodes
mod Client
mod Libraries
mod Liveness
mod Runs
