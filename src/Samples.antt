-- ===== src/Samples.antt =====
-- The theorems at concrete inputs, with fixed-point numbers in the place of floats.
pub mod Data
pub mod CacheRuns
pub mod AdmissionRuns
pub mod SchedulerRuns
pub mod RoutingRuns
pub mod SimulatorRuns
pub mod HarnessRuns
pub mod LearningRuns
