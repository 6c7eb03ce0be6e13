-- ===== src/Tests.antt =====
-- Runs of the theorems at concrete inputs.
mod Queue
mod Message
mod Boot
mod Board
mod Stop
mod Calls
mod Granted
mod Log
mod Bundles
mod Hashes
mod Manifests
mod Verified
mod Network
