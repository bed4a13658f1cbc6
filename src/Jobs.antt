-- ===== src/Jobs.antt =====
-- Jobs: the state machine (pwnproxy/shared/contracts/job.py), the job table
-- (pwnproxy/services/crawler/storage.py), and the commands (pwnproxy/services/jobs/lifecycle.py).
pub mod State
pub mod Storage
pub mod Urls
pub mod Lifecycle
