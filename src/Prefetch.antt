-- ===== src/Prefetch.antt =====
-- go/internal/prefetch/prefetch.go: what is fetched ahead of a viewer, and the worker.
pub mod Enqueue
pub mod Plan
pub mod Worker
pub mod Gaps
