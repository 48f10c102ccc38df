-- ===== src/Shared/Trimmed.antt =====
-- What Python's `startswith`, `strip`, `removeprefix` and `upper` do with a text.
use Prim.Native.Nat.{ℕ, ◌-◌}
use mathlib.Core.Bool.{Bool, true, false, ◌||◌, ◌&&◌}
use mathlib.Core.List.{[], ◌∷◌, map}
use cloud_in_a_bottle.Shared.Checks.{leb, if◌then◌else◌, ◌==◌, ℕ_eq}
use cloud_in_a_bottle.Shared.Lists.{length}
use cloud_in_a_bottle.Shared.Codes.{Text, drop}

-- `s.startswith(prefix)`
unfoldable pub starts_with : Text → Text → Bool
starts_with [] s = true
starts_with (c ∷ prefix) [] = false
starts_with (c ∷ prefix) (d ∷ s) = (c == d) && starts_with prefix s

-- `s.strip()`, of the white space up to code point 160.
unfoldable pub is_space : ℕ → Bool
is_space c = (leb 9 c && leb c 13) || ((leb 28 c && leb c 32) || ((c == 133) || (c == 160)))

unfoldable pub lstrip : Text → Text
lstrip [] = []
lstrip (c ∷ s) = if is_space c then lstrip s else c ∷ s

unfoldable pub rstrip : Text → Text
rstrip [] = []
rstrip (c ∷ s) =
    let rest = rstrip s in
    elim rest [ [] ↦ if is_space c then [] else c ∷ [] | d ∷ ds ↦ c ∷ d ∷ ds ]

unfoldable pub strip : Text → Text
strip s = lstrip (rstrip s)

-- `s.upper()`
abbrev pub upper_char : ℕ → ℕ
upper_char c = if leb b'a' c && leb c b'z' then c - 32 else c

unfoldable pub upper : Text → Text
upper = map upper_char

-- `s.removeprefix(prefix)`
unfoldable pub remove_prefix : Text → Text → Text
remove_prefix prefix s = if starts_with prefix s then drop (length prefix) s else s
