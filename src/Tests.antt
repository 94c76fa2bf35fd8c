-- ===== src/Tests.antt =====
-- Concrete runs of the modelled program, which show that the conditions of the theorems can hold.
mod Samples
mod EngineRuns
mod ConfigRuns
mod CrashRuns
mod CaptureRuns
mod NetworkRuns
mod ServerRuns
mod MainRuns
mod JsonRuns
mod StoreRuns
mod TableRuns
mod AppRuns
mod ProcessRuns
mod SourceRuns
mod RuntimeRuns
mod LiveRuns
mod ShutdownRuns
