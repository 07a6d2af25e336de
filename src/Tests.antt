-- ===== src/Tests.antt =====
-- Concrete inputs for the theorems that have hypotheses.
mod Display
mod Drivers
mod E1000
mod Files
mod Format
mod Keyboard
mod Link
mod Memory
mod Mutex
mod Net
mod Probe
mod Shell
mod Tasking
mod Vga
