-- ===== src/Tests.antt =====
-- The theorems at concrete inputs, and runs of the program.
mod Contacts
mod Transport
mod Chat
mod Wire
mod Login
mod Serving
mod Text
mod Operations
mod System
