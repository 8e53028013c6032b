-- ===== src/Tests.antt =====
-- Runs of the models at concrete inputs, and the theorems at concrete inputs.
mod SchedulerTests
mod StoreTests
mod ManagerTests
mod CorpusTests
mod ArcaTests
mod SpeculativeTests
mod DecoderTests
mod PrefixTests
mod EngineTests
