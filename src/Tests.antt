-- ===== src/Tests.antt =====
-- Runs of the theorems at concrete inputs.
mod Floats
mod SafetyRuns
mod CanRuns
mod ImuRuns
mod IpcRuns
mod DamiaoRuns
mod Extended
mod Fixed
mod HoldRuns
mod GroupRuns
mod AuditRuns
