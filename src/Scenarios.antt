-- ===== src/Scenarios.antt =====
-- Concrete databases and messages on which the theorems are applied.
mod Rows
mod Events
mod Control
mod Flow
mod Platforms
mod Publishers
mod Messages
mod Consumer
mod Moderations
mod Operators
mod Preparations
mod Watches
