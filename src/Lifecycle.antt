-- ===== src/Lifecycle.antt =====
-- lifecycle.py and approval.py: review, acceptance and rejection of a sealed Agent Run.
pub mod Receipts
pub mod Operations
pub mod Approval
