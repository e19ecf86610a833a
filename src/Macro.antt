-- ===== src/Macro.antt =====
-- The procedural macros of shakespeare-macro/src: what they read, and the items that they generate.
pub mod Syntax
pub mod Naming
pub mod Signatures
pub mod Declarations
pub mod Handlers
pub mod ActorDecl
pub mod Grouping
pub mod RoleOutput
pub mod Performance
pub mod ActorOutput
pub mod Entry
pub mod Typing
