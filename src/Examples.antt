-- ===== src/Examples.antt =====
-- Runs of the models on small inputs.
mod Cleanup
mod Rendering
mod Input
mod Leases
mod Pacing
mod Processes
mod Identities
mod Scenes
mod Signals
mod Sessions
mod Sources
mod Texts
mod Traces
