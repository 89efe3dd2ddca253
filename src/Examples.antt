-- ===== src/Examples.antt =====
-- Runs of the model at concrete inputs.
mod Data
mod Projects
mod Users
mod Tasks
mod Sites
mod Requests
mod Streams
mod Assistant
mod Question
