-- ===== src/Tests.antt =====
-- Runs of the modelled code, and the theorems at concrete inputs.
mod World
mod Votes
mod Slots
mod Returns
mod Status
mod Service
mod Figures
mod Views
mod Github
mod Data
mod Modals
mod Settings
mod Voters
