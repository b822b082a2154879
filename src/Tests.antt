-- ===== src/Tests.antt =====
-- Runs on concrete inputs, and the theorems at concrete inputs.
mod Json
mod Envelopes
mod Sessions
mod Backend
mod Server
mod RunDir
mod Lsf
mod Wave
mod Vsignal
mod Proxy
mod Daemon
mod Ffr
mod Cursor
mod Exchange
