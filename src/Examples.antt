-- ===== src/Examples.antt =====
-- Runs of the program on the company of Fixtures.
mod QueueRuns
mod ServiceRuns
mod PageRuns
mod PullRuns
mod ApprovalRuns
mod JobRuns
mod HttpRuns
mod UploadRuns
