-- ===== src/Structure.antt =====
-- frontend/src/pages/tabs/TemplateBuilder.tsx: the structure of a template, its fonts, and the
-- variables that it uses. The names of `Data` are passed on.
mod Data
pub mod Fonts
pub mod Variables
pub use Data.*
unfoldable pub use Data.{blocks_of}
