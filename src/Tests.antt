-- ===== src/Tests.antt =====
-- Concrete inputs of the modelled functions.
mod Devices
mod Processes
mod Files
mod Text
mod Interpreters
mod Calls
mod Graphics
mod Tables
mod Fat32s
mod Screen
