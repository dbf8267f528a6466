-- ===== src/Model.antt =====
-- model/*.go: the rows of the database tables. A UUID and an instant are numbers, an instant in
-- nanoseconds since the epoch; a pointer field is an Option.
mod Client
mod Tokens
mod Flow
mod Account
mod Schema
unfoldable pub use Client.*
unfoldable pub use Tokens.*
unfoldable pub use Flow.*
unfoldable pub use Account.*
unfoldable pub use Schema.*
