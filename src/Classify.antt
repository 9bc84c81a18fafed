-- ===== src/Classify.antt =====
-- internal/classify: the verdicts that compare cells of attempts.
pub mod Outages
pub mod Aggregate
pub mod Cells
pub mod Dest
pub mod Justified
pub mod Rules
pub mod Result
pub mod Run
pub mod Transient
