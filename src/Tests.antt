-- ===== src/Tests.antt =====
-- Runs of the model at concrete inputs, for the theorems with hypotheses.
mod Frames
mod Trackers
mod Hooks
mod Access
mod Block
mod External
mod Evm
mod Renewal
mod Sandbox
mod Instructions
mod State
mod System
mod Loop
mod Errors
