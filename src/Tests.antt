-- ===== src/Tests.antt =====
-- Runs of the model on concrete inputs, and the theorems at inputs that meet their hypotheses.
pub mod Data
mod Wire
mod Normal
mod ViewChange
mod Queue
mod Protocol
mod Recovery
mod TcpClient
mod Client
mod Network
mod Programs
mod Cluster
