-- ===== src/Platform.antt =====
-- B/platform: the job queue's dispatcher and the worker controller.
pub mod Examples
pub mod Queue
pub mod Worker
