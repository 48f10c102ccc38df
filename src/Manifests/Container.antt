-- ===== src/Manifests/Container.antt =====
-- _validate_capabilities, _validate_devices, _parse_links and the deprecated names of the module
-- compute_space/src/compute_space/core/manifest.py.
pub mod Safe
use cloud_in_a_bottle.Shared.{
  List, List_eq, Result, String_eq, Text, [], before, codes, elem, map, ok, range_from,
  remove_prefix, require, required, strip, upper, ℕ_eq, ◌++◌, ◌+◌, ◌>>=◌, ◌>>◌, ◌∷◌,
}
use cloud_in_a_bottle.Manifests.Toml.{
  Toml, ManifestError, as_list, as_string, as_table, capability_not_safe, device_not_allowed,
  missing_name, missing_path, not_a_list, not_a_string, not_a_table, text_field,
}

abbrev pub safe_capabilities : List Text
safe_capabilities =
    codes "NET_ADMIN"
    ∷ codes "NET_RAW"
    ∷ codes "NET_BIND_SERVICE"
    ∷ codes "NET_BROADCAST"
    ∷ codes "CHOWN"
    ∷ codes "DAC_OVERRIDE"
    ∷ codes "DAC_READ_SEARCH"
    ∷ codes "FOWNER"
    ∷ codes "FSETID"
    ∷ codes "SETFCAP"
    ∷ codes "KILL"
    ∷ codes "SETUID"
    ∷ codes "SETGID"
    ∷ codes "SETPCAP"
    ∷ codes "MKNOD"
    ∷ codes "AUDIT_WRITE"
    ∷ codes "IPC_LOCK"
    ∷ codes "IPC_OWNER"
    ∷ codes "SYS_CHROOT"
    ∷ []

-- The digits 0 to 7 after a prefix.
unfoldable pub eight_slots : Text → List Text
eight_slots prefix = map (λ i. prefix ++ (b'0' + i) ∷ []) (range_from 0 8)

unfoldable pub safe_device_paths : List Text
unfolding eight_slots
safe_device_paths =
    codes "/dev/net/tun" ∷ codes "/dev/fuse" ∷ eight_slots (codes "/dev/ttyS")
    ++ eight_slots (codes "/dev/ttyUSB")
    ++ eight_slots (codes "/dev/ttyACM")

unfoldable pub capability_name : Text → Text
capability_name entry = remove_prefix (codes "CAP_") (upper (strip entry))

unfoldable pub validate_capability : Toml → Result ManifestError Text
validate_capability entry = do
  text ← required (as_string entry) not_a_string
  require (elem (capability_name text) safe_capabilities) capability_not_safe
  ok (capability_name text)

-- `entry.split(":", 1)[0].strip()`
unfoldable pub host_path : Text → Text
host_path entry = strip (before b':' entry)

unfoldable pub validate_device : Toml → Result ManifestError Text
validate_device entry = do
  text ← required (as_string entry) not_a_string
  require (elem (host_path text) safe_device_paths) device_not_allowed
  ok text

-- A link of the dashboard.
pub record AppLink : Type 0 where
  pub name : Text
  pub path : Text

unfoldable pub parse_link : Toml → Result ManifestError AppLink
parse_link entry = do
  fields ← required (as_table entry) not_a_table
  name ← required (text_field (codes "name") fields) missing_name
  path ← required (text_field (codes "path") fields) missing_path
  ok (record { name = name; path = path })

-- The loop that appends what each entry gives, and stops at the first that raises.
unfoldable pub each :
    {A B : Type 0} → (A → Result ManifestError B) → List A → Result ManifestError (List B)
each f [] = ok []
each f (x ∷ xs) = do y ← f x; ys ← each f xs; ok (y ∷ ys)

unfoldable pub validate_capabilities : Toml → Result ManifestError (List Text)
validate_capabilities caps = required (as_list caps) not_a_list >>= each validate_capability

unfoldable pub validate_devices : Toml → Result ManifestError (List Text)
validate_devices devices = required (as_list devices) not_a_list >>= each validate_device

unfoldable pub parse_links : Toml → Result ManifestError (List AppLink)
parse_links links = required (as_list links) not_a_list >>= each parse_link
