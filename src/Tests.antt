-- ===== src/Tests.antt =====
-- Runs of the model on concrete inputs, and each result at one of them.
mod Loop
mod Sends
mod Samples
mod Declared
mod Generated
mod Answered
mod Room
mod Expanded
mod Files
mod Clients
mod Reports
mod Typed
mod Copied
mod Wired
mod Channels
mod Held
