-- ===== src/Tests.antt =====
-- Runs of the model at concrete inputs, and the theorems applied there.
mod Wire
mod Schemas
mod Varints
mod Messages
mod Bridges
mod Json
mod Configs
mod Sockets
mod Systems
mod Nodes
