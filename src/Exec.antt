-- ===== src/Exec.antt =====
-- Handlers as state with exceptions.
mod Defs
pub mod Keeps
pub mod Returns
pub use Defs.{Result, ok, err}
unfoldable pub use Defs.{
  Exec, pure, raise, lift, gets, or_raise, catch, caught, ensure, settle, modify, require, continue,
  ◌>>=◌, ◌>>◌, ◌>>?◌,
}
