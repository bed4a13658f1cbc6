-- ===== src/Scan.antt =====
-- pwnproxy/shared/scan: what the scanners share.
pub mod Params
