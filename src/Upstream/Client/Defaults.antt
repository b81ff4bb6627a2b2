-- ===== src/Upstream/Client/Defaults.antt =====
-- The upstream of the default profile (acme/profiles.py, upstream/client.py).
use acme_lan.Prelude.{◌≡◌, refl, none, some, inl, inr, Bool-cases}
use acme_lan.Prelude.Text.{is_empty}
use acme_lan.Platform.{Platform}
use acme_lan.Acme.Profiles.{default_upstream}
use acme_lan.Upstream.Client.{client_kwargs, connection}

-- The default profile is served by the same client as a call without a profile: each of its
-- settings is the global one.
pub connection-default_upstream :
    (p : Platform)
    → connection p (client_kwargs (some (default_upstream p))) ≡ connection p (client_kwargs none)
unfolding connection client_kwargs default_upstream
connection-default_upstream p = elim (Bool-cases (is_empty p.settings.upstream_directory_url)) [
  | inl bare ↦ elim (Bool-cases (is_empty p.settings.upstream_account_key_path)) [
    | inl none_named ↦ rw (bare, none_named) refl
    | inr named ↦ rw (bare, named) refl
  ]
  | inr full ↦ elim (Bool-cases (is_empty p.settings.upstream_account_key_path)) [
    | inl none_named ↦ rw (full, none_named) refl
    | inr named ↦ rw (full, named) refl
  ]
]
