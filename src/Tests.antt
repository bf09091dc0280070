-- ===== src/Tests.antt =====
-- Concrete inputs, and each theorem at one of them.
mod Data
mod Codec
mod Sending
mod Receiving
mod Acks
mod Opening
mod Life
mod Transfer
mod Link
mod Ping
mod Listening
mod Wrapped
mod Texts
mod Echo
mod Owners
