-- ===== src/Examples.antt =====
-- Tests, and each property at an input that meets its hypotheses.
mod Decks
mod Tables
mod Pots
mod Shedding
mod Tricks
mod Services
mod Lobbies
mod Showdowns
mod Melds
