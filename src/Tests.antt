-- ===== src/Tests.antt =====
-- Runs of the model at concrete inputs, and the theorems applied there.
mod Config
mod Demo
mod Server
mod Library
mod Client
mod Sender
mod Reader
mod Served
mod Log
mod Storage
mod Rotation
mod Env
mod Running
