-- ===== src/Examples.antt =====
-- The theorems at concrete inputs, one module for each part.
mod Words
mod Jobs
mod Services
mod Ports
mod Stats
mod Hooks
mod Included
mod Outputs
mod Samples
mod Logs
mod Rules
mod Kernels
mod Addons
mod Logins
mod Endpoints
mod Arguments
