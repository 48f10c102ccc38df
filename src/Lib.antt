-- ===== src/Lib.antt =====
-- Cloud in a Bottle: models of the router's core (the Python package compute_space) with theorems
-- about them. The router runs on a small host: it answers on several domains, deploys apps in
-- containers, forwards the requests of their subdomains to them, and lets apps call services that
-- other apps, or the router, provide. Its state is a SQLite database.
--
-- How the parts interact. A request comes to the proxy (Access.Dispatch), which asks Domains for
-- the domain and the app of the host name, Access.Owner for the identity of the caller, who shows a
-- session or a token (Access.Credentials) on a request whose origin counts (Access.Requests), and
-- Access.Paths whether the path is public. A deployment asks Ports for the host ports of an app. A
-- call between apps asks Services for the provider. Before any of it, Migrations brings the
-- database to the version of the code.
--
-- Files, and the code that they are about:
-- - Shared and its children: tests on numbers, texts and lists, the library names that are passed
--   on, the conditional, lists with Boolean predicates, exceptions as results, texts as lists of
--   their code points, strict orders and the maximum of a list.
-- - Schema: rows of compute_space/src/compute_space/db/schema.sql.
-- - Ports, Ports/...: compute_space/src/compute_space/core/ports.py. allocate_port,
--   check_port_available, find_free_host_port and resolve_port_mappings carry the source's names.
--   Ports/Sync is _sync_port_mappings of core/apps.py. Whether a port binds, and the shuffled order
--   of the candidates, are parameters.
-- - Domains, Domains/...: compute_space/src/compute_space/core/domains.py and is_valid_app_name of
--   compute_space/src/compute_space/core/app_id.py. The class Domain, the table of domains
--   (Domains/Table) and set_primary_domain, whose transaction is a result: an exception carries no
--   state.
-- - Migrations/Versions, Migrations/Database, ...: compute_space/src/compute_space/db/versioned
--   (runner.py, base.py). The content of a database, the script of schema.sql and the statements of
--   a migration are the fields of the interface Sqlite; a transaction that raises leaves the
--   committed state.
-- - Migrations/System, ...: openhost_system_agent/src/openhost_system_agent/migrations (runner.py,
--   migration_log.py, registry.py). The machine and what a migration does to it are parameters; a
--   migration that raises leaves what it did so far.
-- - Services, Services/...: compute_space/src/compute_space/core/service_interface (services.py,
--   resolve.py, provider.py, builtin_services.py) and core/proxy_target.py. Versions and specifiers
--   of the library packaging are the fields of the interface Packaging.
-- - Access/Credentials: compute_space/src/compute_space/core/auth/auth.py. The hash of a token is a
--   parameter, time is a number of seconds.
-- - Access/Requests, Access/Owner: compute_space/src/compute_space/web/auth/auth.py. urlparse is a
--   parameter.
-- - Access/Paths: the public paths of compute_space/src/compute_space/core/apps.py. unquote is a
--   parameter.
-- - Access/Dispatch: compute_space/src/compute_space/web/middleware/subdomain_proxy.py, with
--   web/helpers/zone.py and host_with_request_port of core/domains.py.
-- - Access/Forwarding: the client's headers that go with a request, of
--   compute_space/src/compute_space/web/helpers/proxy.py.
-- - Permissions: compute_space/src/compute_space/core/auth/permissions_v2.py. The module json is a
--   parameter.
-- - Manifests, Manifests/...: compute_space/src/compute_space/core/manifest.py. Manifests/Toml has
--   the values that tomllib.loads returns, Ports, Container and Services the checks of the parts,
--   Sections the checks that come first, Parsed parse_manifest_from_string, and Declared the
--   permission diffs that an update is held for. tomllib.loads, cattrs.structure, float and the
--   library packaging are parameters.
-- - Mdns, Mdns/...: compute_space/src/compute_space/core/mdns. Mdns/Bytes has struct and UTF-8,
--   Packets the module packets.py, Answers the module answers.py, and Responder the handling of one
--   packet in responder.py. socket.inet_aton, inet_ntoa and str.lower are parameters. Bytes are
--   numbers, whose range is not part of their type.
-- - Operations: compute_space/src/compute_space/core/operation_locks.py, the lock and the tasks,
--   and the event loop as a relation of steps between states.
-- - Guards, Guards/...: the memory pressure check of
--   compute_space/src/compute_space/core/memory_guard.py, the storage guard of core/storage.py and
--   the sweep of core/image_pruner.py beside it.
-- Modules named Tests run the definitions at concrete inputs.
--
-- Bounds and fuel. Loops over lists are structural recursion. The decoding of a path has the eight
-- rounds of the source, and the reading of a DNS name its 128. Decimal digits take one unit of fuel
-- more than the number, which is more than its digits. Numbers are natural numbers, since the
-- source's are unbounded; a subtraction stops at 0, where the source takes the length of a host
-- name less that of a suffix of it.
--
-- Texts are lists of code points. lower changes ASCII letters: host names and header names are
-- ASCII. The labels of a DNS name may be any text, so that str.lower is a parameter there, and the
-- theorems hold whatever it does. A table is the list of its rows in the order in which a query
-- meets them.
--
-- Not modelled: the lifecycle of apps, the archive backend and backups, updates, DNS and
-- certificates, most of whose steps are calls of other programs; the HTTP routes and pages, the
-- commands of the host agent and the bundled apps, which are input and output; and the transfer of
-- bodies and web sockets between a client and an app.
pub mod Access
pub mod Domains
pub mod Guards
pub mod Manifests
pub mod Mdns
pub mod Migrations
pub mod Operations
pub mod Permissions
pub mod Ports
pub mod Schema
pub mod Services
pub mod Shared
