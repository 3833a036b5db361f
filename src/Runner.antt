-- ===== src/Runner.antt =====
-- lib/runner.hpp: `runner::allocator<CanGrow, CollectStats, Huge>`, the allocator of runs.
pub mod Sizes
pub mod Mask
pub mod Runs
pub mod Heap
pub mod Calls
pub mod Outside
pub mod Chunks
mod Tests
