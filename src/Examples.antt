-- ===== src/Examples.antt =====
-- Runs of the model on concrete inputs, and each theorem at an input that meets its hypotheses.
mod Traces
mod States
mod Enumeration
mod Selecting
mod Judging
mod Logging
mod Mounting
mod Artifacts
mod Experiments
mod Campaigns
mod Working
mod Sweeping
mod Pipeline
