-- ===== src/Tests.antt =====
-- Runs of the models on small inputs, and each theorem at an input that meets its hypotheses.
mod FatTable
mod Syncing
mod Loading
mod Counting
mod Names
mod Transfers
mod Directories
mod Timestamps
mod BootSectors
mod Partitions
mod Handles
mod Mounted
