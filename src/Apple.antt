-- ===== src/Apple.antt =====
-- bridge/src/bridge/providers/apple/: Calendar, Reminders and Contacts by way of osascript.
pub mod Runner
pub mod Script
pub mod Read
pub mod Checks
pub mod Blocks
pub mod Tsv
pub mod Calendar
pub mod Reminders
pub mod Contacts
