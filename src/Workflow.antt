-- ===== src/Workflow.antt =====
-- internal/workflow: queues of jobs.
pub mod Queue
