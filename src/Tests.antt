-- ===== src/Tests.antt =====
-- The theorems at concrete inputs: votes in a table of four nodes, A to D, with f = 1, and a table of
-- ten nodes.
mod Data
mod Voting
mod Collating
mod Views
mod Executing
mod Handling
mod Changing
mod Timing
mod Living
mod Talking
mod Sending
mod Launching
