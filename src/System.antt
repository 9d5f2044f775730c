-- ===== src/System.antt =====
-- The whole program over one set of tables: the API, the queue and the worker, with others between.
pub mod Moves
pub mod Repository
pub mod Transaction
pub mod Requests
pub mod Serving
pub mod Deliveries
pub mod Loading
pub mod Events
pub mod Steps
pub mod Consistency
pub mod History
pub mod Progress
pub mod Deployment
pub mod Spending
pub mod Bounds
pub mod Limits
