-- ===== src/Permissions/Query.antt =====
-- What get_granted_permissions_v2 of compute_space/src/compute_space/core/auth/permissions_v2.py finds after
-- a grant.
use mathlib.Core.List.Memᴰ
use cloud_in_a_bottle.Shared.{List, List_eq, Memᴰ, String_eq, ℕ_eq}
