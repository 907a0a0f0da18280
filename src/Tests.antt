-- ===== src/Tests.antt =====
-- Runs of the program on concrete inputs, and the theorems at them.
mod Crates
mod Machine
mod Capabilities
mod Sessions
mod Logs
mod Laws
mod Tokens
mod Jsons
mod Dialogues
mod Refinements
mod Tampering
mod CommandLines
