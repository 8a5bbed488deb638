-- ===== src/Tests.antt =====
-- Concrete inputs on which the theorems apply, and runs of the definitions on them.
mod Data
mod BookRuns
mod MachineRuns
mod PipelineRuns
mod ReaderRuns
mod ControlRuns
mod ClockRuns
mod ProcessRuns
