-- ===== src/Counter.antt =====
-- src/examples/: the counter that the examples serve, its store and the client of the store.
pub mod Store
pub mod Client
