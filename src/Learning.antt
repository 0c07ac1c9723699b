-- ===== src/Learning.antt =====
-- app/machine_learning_for_routing/controller/learning_module.py: the choice of paths for flows by
-- reinforcement learning.
pub mod Data
pub mod Spaces
pub mod Numbers
pub mod Tables
pub mod TableLaws
pub mod Best
pub mod UpdateLaws
pub mod Choice
pub mod Ucb
pub mod Softmax
pub mod ChoiceLaws
pub mod Rewards
pub mod Merging
pub mod Building
pub mod Loop
pub mod Turn
pub mod Ready
pub mod TableFits
pub mod Updated
pub mod Decide
pub mod MergeLaws
pub mod BuiltTables
pub mod Steps
pub mod Safety
pub mod Epsilon
pub mod Answers
pub mod Search
pub mod SearchLaws
pub mod Routes
pub mod PathSearch
pub mod SpaceLaws
pub mod KickOut
pub mod Moves
pub mod ActionLaws
pub mod NextState
mod Tests
mod LoopTests
