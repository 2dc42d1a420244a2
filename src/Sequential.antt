-- ===== src/Sequential.antt =====
-- Forward and backward passes over remote blocks, src/drift/client/sequential_autograd.py. The
-- coroutines are runs of attempts, counted by ticks, over the routes of the module Routing.
pub mod Forward
pub mod Trace
pub mod Returns
pub mod Complete
pub mod Backward
pub mod Gradients
pub mod Recovery
pub mod Reverse
pub mod Tests
