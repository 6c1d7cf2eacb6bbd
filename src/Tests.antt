-- ===== src/Tests.antt =====
-- Runs of the theorems at concrete inputs, with concrete functions for what the program takes from
-- the browser and from its libraries.
mod Auth
mod Api
mod Forms
mod Settings
mod Health
mod Trace
mod Shared
mod Devices
mod Hooks
mod Codec
mod Node
mod Shell
mod Wire
mod System
