-- ===== src/Tests.antt =====
-- The theorems at concrete inputs: services that run an echo program, and small states.
mod Fixtures
mod ApiFixtures
mod Memory
mod JudgeTests
mod PoolTests
mod RunTests
mod OrchestratorTests
mod ApiTests
mod SiteTests
mod SystemTests
mod KeySpaceTests
mod LoopTests
mod ConfigTests
