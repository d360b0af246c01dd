-- ===== src/Tests.antt =====
-- The theorems at concrete inputs, and runs of the model.
mod Wire
mod Link
mod Negotiation
mod Channels
mod Auth
mod Version
mod Crates
mod Ciphers
mod Session
mod Opening
mod Numbers
mod Keys
mod Client
mod Backend
