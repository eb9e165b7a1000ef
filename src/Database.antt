-- ===== src/Database.antt =====
-- The database: the rows of prisma/schema.prisma, and the Prisma client, which is a package and
-- so an interface. `Delegate` holds the calls that the source makes on one table, with their
-- documented behaviour as laws; a table is the list of its rows.
mod Outcome
mod Schema
mod Catalog
mod Site
mod Client
mod State
mod Kept
pub use Outcome.*
pub use Schema.*
pub use Catalog.*
pub use Site.*
pub use Client.*
pub use State.*
pub use Kept.*
