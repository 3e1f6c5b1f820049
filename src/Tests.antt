-- ===== src/Tests.antt =====
-- Runs of the definitions on small inputs, and the theorems at such inputs.
mod Data
mod Table
mod Directory
mod Content
mod Handle
mod Frame
mod Ring
mod Readback
mod Boot
mod Machine
mod Process
mod Pages
mod Display
mod Commands
