-- ===== src/Examples.antt =====
-- Sample states, runs of the code on them, and the theorems at concrete inputs.
mod Samples
mod Secrets
mod Config
mod Upstreams
mod Counters
mod Engine
mod Instances
mod Tasks
mod Lines
mod Units
