-- ===== src/Management/Auth.antt =====
-- management/auth.py: who is let through to the management API.
pub mod Gate
use Prim.Native.String.{◌++◌}
use acme_lan.Prelude.{String, Bool, true, false, Option, none, some, ◌==◌, if◌then◌else◌}
use acme_lan.Prelude.Text.{is_empty}
use acme_lan.Platform.{Platform}
use acme_lan.Exec.{pure, raise, or_raise, ◌>>=◌}
use acme_lan.Models.Rows.{User}
use acme_lan.Models.Session.{Handler}
use acme_lan.Acme.Errors.{http}
use acme_lan.Users.{resolve_session}

module _ (p : Platform) where
  -- Without a user: open only while nothing asks for a login.
  unfoldable pub anonymous : Handler (Option User)
  anonymous =
      if p.settings.auth_required
      then raise (http 401 "Authentication required")
      else if is_empty p.settings.admin_token
      then pure none
      else raise (http 401 "Invalid or missing admin token")

  unfoldable pub signed_in : Option User → Handler (Option User)
  signed_in none = anonymous
  signed_in (some user) = pure (some user)

  unfoldable pub by_session : Option String → Handler (Option User)
  by_session cookie = do user ← resolve_session cookie; signed_in user

  unfoldable pub by_token : String → Handler (Option User)
  by_token authorization =
      if authorization == ("Bearer " ++ p.settings.admin_token)
      then pure none
      else raise (http 401 "Invalid admin token")

  -- The `Authorization` header goes first, where a token is configured.
  unfoldable pub require_admin : Option String → Option String → Handler (Option User)
  require_admin none cookie = by_session cookie
  require_admin (some authorization) cookie =
      if is_empty p.settings.admin_token
      then by_session cookie
      else if is_empty authorization
      then by_session cookie
      else by_token authorization

  unfoldable pub require_user : Option String → Option String → Handler User
  require_user authorization cookie = do
    user ← require_admin authorization cookie
    or_raise user (http 401 "This action requires a logged-in user")
