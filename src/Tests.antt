-- ===== src/Tests.antt =====
-- Small runs of the models, and the theorems at concrete inputs.
mod Tables
mod Processes
mod Totals
mod Databases
mod Services
mod Messages
mod Operations
mod Pages
mod Files
mod Texts
mod Asynchronous
mod Execution
