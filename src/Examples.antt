-- ===== src/Examples.antt =====
-- The theorems at concrete inputs, and tests of the definitions.
mod Ids
mod Status
mod Queue
mod Auth
mod Teams
mod Access
mod Threads
mod Projects
mod Images
mod Pats
mod Payouts
mod Notifications
mod Users
mod Sessions
mod Flows
mod Credentials
mod Names
