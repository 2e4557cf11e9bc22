-- ===== src/Tests.antt =====
-- The theorems at concrete inputs, and runs of the code's functions.
mod Mailboxes
mod CoolDowns
mod Frames
mod Peers
mod TaskJobs
mod NodeParts
mod Meetings
mod States
mod Closings
mod Rooms
mod Edges
mod Admissions
mod Writers
mod TaskUpdates
mod WorkerJobs
