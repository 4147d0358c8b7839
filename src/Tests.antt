-- ===== src/Tests.antt =====
-- Concrete inputs: what the theorems say of them.
mod Data
mod Backtests
mod Fanout
mod Feeds
mod Fills
mod Orders
mod Passes
mod Ranked
mod Rows
mod Strategies
mod Screens
mod Slices
mod Users
mod Venues
