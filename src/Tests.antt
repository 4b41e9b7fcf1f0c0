-- ===== src/Tests.antt =====
-- Each theorem at a concrete input, one module for each part of the program.
mod OnRetain
mod OnLog
mod OnBudget
mod OnGoal
mod OnInbox
mod OnJobs
mod OnHub
mod OnStream
mod OnCall
mod OnRunner
mod OnProject
mod OnInvariants
mod OnVerdict
