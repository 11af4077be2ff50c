-- ===== src/Mongo.antt =====
-- MongoDB as the services use it through pymongo, which is not part of the repository: the driver
-- is a parameter. The state of a collection is its documents in natural order, and each operation
-- comes with the law that its documentation gives. A filter is a test of a document, and an update
-- is a function on it. Failures of the connection are not modelled.
pub mod Query
mod Interface
pub mod InMemory
pub mod Unique
pub mod Counts
pub use Interface.*
