-- ===== src/Tests.antt =====
-- Tests and witnesses: the definitions on concrete inputs, and the theorems at inputs that meet their
-- hypotheses.
mod Machine
mod Transactions
mod Switching
mod Choices
mod Networks
mod Nodes
mod Messages
mod Starts
mod Trees
mod Runs
mod Reports
