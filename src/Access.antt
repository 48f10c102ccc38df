-- ===== src/Access.antt =====
-- Who may reach what: credentials (compute_space/src/compute_space/core/auth/auth.py), the requests
-- whose cookie counts (compute_space/src/compute_space/web/auth/auth.py), public paths
-- (compute_space/src/compute_space/core/apps.py) and the proxy before the router's own routes
-- (compute_space/src/compute_space/web/middleware/subdomain_proxy.py).
pub mod Credentials
pub mod Paths
pub mod Requests
pub mod Owner
pub mod Dispatch
pub mod Forwarding
mod Tests
