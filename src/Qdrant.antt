-- ===== src/Qdrant.antt =====
-- Qdrant as the services use it through qdrant_client, which is not part of the repository: the
-- client is a parameter. The state of the server is the points of each collection, in the order in
-- which they are scrolled, and each operation comes with the law that its documentation gives. `F`
-- is the type of floating-point numbers. Failures of the connection are not modelled.
pub mod Points
pub mod InMemory
mod Interface
pub use Interface.*
