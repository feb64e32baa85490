-- ===== src/ScopedId.antt =====
-- go/internal/alfa/scoped_id and go/internal/0/xdg_location_type: the name of a blob store on the
-- command line and in a config file.
pub mod Id
pub mod Parse
pub mod Chars
pub mod RoundTrip
pub mod SetLaws
pub mod Rebase
pub mod Ordering
pub mod Unambiguous
mod Samples
