-- ===== src/Examples.antt =====
-- Concrete runs of the model: each theorem applied where its hypotheses hold.
mod Data
mod Queue
mod Catalogue
mod Requests
mod Slots
mod Process
mod Export
mod Searches
mod Media
mod Migration
