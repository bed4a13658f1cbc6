-- ===== src/Triage.antt =====
-- pwnproxy/ai/triage: the triage of saved findings. Scores are Python's floats, which a parameter
-- stands for.
pub mod Heuristic
pub mod Pipeline
pub mod Budget
pub mod Verdicts
