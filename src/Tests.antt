-- ===== src/Tests.antt =====
-- The tests, and the theorems at concrete inputs.
mod Scenario
mod Environment
mod Running
mod Settings
mod Text
mod Walking
mod Sharing
mod Accepting
mod Generating
mod Reporting
mod Json
mod Starting
mod Loading
