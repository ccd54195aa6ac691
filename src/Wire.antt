-- ===== src/Wire.antt =====
-- The byte level of server/serialization.hpp: what `write_pod` and `read_pod` copy.
pub mod Bytes
pub mod Pod
