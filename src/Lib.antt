-- ===== src/Lib.antt =====
-- acme-lan: an ACME server (RFC 8555) for a local network that obtains its certificates from an
-- upstream CA, with a dashboard for hosts that run no ACME client. All paths are relative to
-- src/acme_lan.
--
-- The parts and how they interact. A client signs each ACME request as a JWS. `acme/common.py` and
-- `acme/jws.py` verify it: the body is parsed, the URL compared, the nonce consumed
-- (`acme/nonce.py`), the key found in the header or in the account, the signature checked. The
-- handlers of `acme/accounts.py`, `acme/orders.py`, `acme/authz.py` and `acme/certificates.py` then
-- work on the database of `models.py`; a challenge is checked by `validators/`, and finalize asks
-- the upstream for a certificate. `users.py` keeps the dashboard's sessions, `hosts.py` and
-- `scheduler.py` renew the certificates of managed hosts, `certlifecycle.py` says which
-- certificates expire, `maintenance.py` purges. `upstream/fulfil.py` is what answers finalize: it
-- places an order at the upstream CA and proves each name over DNS or at the edge. The management
-- API is gated by `management/auth.py`; `management/auth_api.py` signs users in, with a password or
-- through `oidc.py`. `deploy/cisco_ios.py` installs certificates on a device, and `certaudit.py`
-- compares what an endpoint serves with what was issued.
--
-- Which file models which part:
--   Prelude, Json, Exec, Table: text operations, JSON values, handlers as state with exceptions
--     (`Exec S A = S → Result A × S`), tables as lists of rows by primary key.
--   Models/Rows: the tables of `models.py` and the state `World`. `db` is what is committed, `tx`
--     what the session of the request sees, `nonces` the nonce table, `draws` the number of random
--     values drawn. Models/Session: the calls of a session (`commit`, `write`, look-ups).
--   Platform: what comes from outside the repository, as fields with no law.
--   Validators: `validators/http01.py` and `validators/tlsalpn01.py`.
--   Acme/Errors, Encoding, Nonce, Jws, Common, Profiles, Serializers, Accounts, Authz,
--     Certificates, Directory: the files of `acme/` with these names; Acme/Orders/Status, Create and
--     Finalize: `acme/orders.py`. Each handler is one function with the source's name, and steps
--     of it that theorems speak of are functions of their own.
--   Acme/Server: the routes of `main.py`, a request served in a session of its own, and the states
--     that requests lead to. Server/Frame: the rules for invariants that do not look at the
--     tables.
--   Users, Lifecycle, Maintenance, Notifications: `users.py`, `certlifecycle.py`,
--     `maintenance.py`, `notifications.py`; the two channels of the last are parameters.
--   Hosts: `hosts.py` and `scheduler.py`, over the interface `Outside` for key generation, the
--     plugins of `deploy/`, the secret providers and the certificate store.
--   Management/Auth, Accounts and SingleSignOn: `management/auth.py`, and `management/auth_api.py`
--     without and with OIDC; Oidc: `oidc.py`. An `OidcError` is the exception `failure`.
--   Management/Hosts: `management/hosts_api.py`: the creation, update and deletion of hosts and of
--     credentials, with the registry of plugins a parameter.
--   Upstream/Client, Edge and Fulfil: `upstream/` (with `_client_kwargs` in Client). A state `Run`
--     keeps the calls made so far and the lists that the source appends to; the ACME library and
--     the DNS provider are the interface `Outside`. The ACME part sees it by `fulfil_order` of the
--     platform.
--   Deploy/Shell: `Channel.expect` of `deploy/iosshell.py` and `IosSession` of
--     `deploy/cisco_ios.py`; Deploy/Ios and Deploy/Ios/Import: its plugin. `Device` is the other end
--     of the channel, and says what the device answers to what was sent.
--   Audit: `certaudit.py`.
--   Tests: a concrete platform and state, and each theorem there.
--
-- Choices. Requests are handled one after the other: no second request runs while one waits for
-- the network, and the clock stands still within a request. A date is a number of microseconds, and
-- a number in JSON is natural. An exception that is no `AcmeError` is one value, `uncaught`. A
-- `josepy.JWK` is represented by the JSON it was read from. `new_order` rejects an identifier
-- whose value is no text before it writes; the source raises when it reaches it, and the rollback
-- of the session makes the two the same. A deleted or updated row is addressed by its primary key.
-- Recursion is on lists and texts, but for the two loops that read from a device until a deadline:
-- these recurse on the number of readings that the timeout allows, which the device gives
-- (`rounds`), and end as the source does at the deadline, with the exception for a timeout. To stop
-- the edge responder (`edge.stop`) is taken not to raise; if it did, A records would be left.
--
-- Not modelled: the rest of the management API, the plugins of `deploy/` over SSH and for local
-- files, the SSH transports, DNS, secret and store plugins, the private CA, the registration at the
-- upstream, health checks, the settings' storage, migrations and start-up. `build_host_csr` is a
-- field of `Outside`, since it is only calls of the cryptography library. The timer loops of the
-- scheduler and of the notifier are left out. Of a login's pages only what a user's session hangs
-- on is in the answers; passwords that are too short are refused by the form, with 422.
pub mod Prelude
pub mod Json
pub mod Exec
pub mod Table
pub mod Models
pub mod Platform
pub mod Validators
pub mod Acme
pub mod Users
pub mod Lifecycle
pub mod Maintenance
pub mod Hosts
pub mod Notifications
pub mod Oidc
pub mod Management
mod Tests
pub mod Upstream
pub mod Deploy
pub mod Audit
