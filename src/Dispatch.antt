-- ===== src/Dispatch.antt =====
-- Routing by the type of a message: src/Dispatch, and the queue of jobs of src/Core/JobQueue.cpp.
pub mod Dispatcher
pub mod JobQueue
mod Examples
