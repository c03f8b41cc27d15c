-- ===== src/Examples.antt =====
-- Small runs of the program's parts: the theorems at concrete inputs.
mod Database
mod Tasks
mod Histories
mod Configuration
mod Machine
mod Loops
mod Agents
mod Requests
mod Commands
mod Memories
mod Replies
mod Files
mod Services
mod Expansions
mod Conversations
mod Recall
