-- ===== src/Template.antt =====
-- The pure functions of the template editor, frontend/src/pages/templateEditor.utils.ts, and the
-- state of the editor page, frontend/src/pages/TemplateEditor.tsx.
mod Tests
mod PageTests
mod SessionTests
pub mod Normalize
pub mod Contents
pub mod Reload
pub mod Body
pub mod Samples
pub mod Html
pub mod Saving
pub mod Editor
pub mod Modes
pub mod Loading
pub mod Defaults
pub mod Preview
mod Sessions
pub mod Pausing
pub mod Channels
pub mod Page
pub mod Submit
pub mod Markup
pub mod Payload
mod Specs
