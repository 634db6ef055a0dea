-- ===== src/Tests.antt =====
-- The tests and the witnesses of the results.
mod FormatTests
mod AssetsTests
mod ConvertTests
mod SnapshotTests
mod BenchmarkTests
mod ServerTests
mod LoadTests
mod ToolsTests
mod EnginesTests
mod ReportTests
mod QuantizedTests
