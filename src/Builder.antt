-- ===== src/Builder.antt =====
-- frontend/src/pages/tabs/EmailBuilder.tsx: the visual email editor.
mod Tests
pub mod Samples
pub mod Palette
pub mod Locate
pub mod State
pub mod Edit
pub mod Drag
pub mod View
pub mod Canvas
pub mod Layout
pub mod Ids
pub mod Move
pub mod DragEnd
pub mod Blocks
pub mod AddBlock
pub mod Duplicate
pub mod Keeping
mod Rows
pub mod Drawn
pub mod Shape
mod LayoutIds
pub mod Actions
pub mod Soundness
mod Growth
mod Splices
mod Columns
mod Once
mod Targets
mod Landing
mod Inspector
mod Steps
pub mod Runs
mod Holds
pub mod Bags
mod BagAdds
mod BagSteps
pub mod Refinement
