-- ===== src/Tests.antt =====
-- Runs of the definitions on concrete inputs, and the theorems applied to some.
mod Texts
mod Receiving
mod Serving
mod Settings
mod Parsing
mod Looping
mod Programs
