-- ===== src/Extern.antt =====
-- The code that the program calls and the repository does not hold: the crates `octets`, `bytes`
-- and tokio's TCP stream. The development takes it as a parameter, with its documented behaviour as
-- laws over byte lists.
mod Defs
mod Slices
mod Laws
mod Cursor
mod Simulate
mod Progress
mod Taking
mod TakingLoops
mod Growth
mod Instance
pub use Defs.{Extern}
pub use Slices.*
pub use Laws.*
unfoldable pub use Cursor.*
pub use Simulate.*
pub use Progress.*
pub use Taking.*
pub use TakingLoops.*
pub use Growth.*
pub use Instance.*
