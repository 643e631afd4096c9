-- ===== src/Skills.antt =====
-- app/routers/skills.py: the handlers, in child modules, and what is proved of them.
mod Common
mod Drafts
mod Versions
mod Activation
mod Reads
pub mod Runtime
unfoldable pub use Common.*
unfoldable pub use Drafts.*
unfoldable pub use Versions.*
unfoldable pub use Activation.*
unfoldable pub use Reads.*
