-- ===== src/Examples.antt =====
-- Runs of the models, and their theorems at concrete inputs.
mod Classify
mod Dest
mod Envelope
mod Merge
mod Store
mod Wire
