-- ===== src/State.antt =====
-- The state of the kernel and the commands on it, for the modules of the components.
mod Data
mod Monad
pub use Data.*
pub use Monad.*
