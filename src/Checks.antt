-- ===== src/Checks.antt =====
-- Concrete inputs and runs: a small runtime (Toy), and the theorems applied to it and to texts.
mod Toy
mod Text
mod Metadata
mod Hook
mod Cloud
mod ElfSym
mod Init
mod Start
mod Poll
mod Photon
mod Settings
mod Tracing
mod Client
mod Log
mod Alive
mod Secrets
mod Symbolize
