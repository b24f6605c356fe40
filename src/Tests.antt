-- ===== src/Tests.antt =====
-- Witnesses of the theorems, at concrete inputs.
mod Instance
mod Metadata
mod Device
mod Opening
mod Manager
mod Ondisk
mod Cleanup
mod Xattrs
mod Opens
mod Agent
mod Server
mod Suffixes
mod Directories
mod Updates
mod Post
mod Put
mod Inventory
