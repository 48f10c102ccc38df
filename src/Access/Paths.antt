-- ===== src/Access/Paths.antt =====
-- The public paths of an app: `is_public_path`, `_is_unambiguous_path` and `is_public_request_path` of
-- compute_space/src/compute_space/core/apps.py. `urllib.parse.unquote` with strict errors is a
-- parameter, none where the decoded bytes are no UTF-8.
pub mod Decoded
use cloud_in_a_bottle.Shared.{
  Bool, List, List_eq, Option, String_eq, Text, [], all, any, before, codes, elem, false,
  if◌then◌else◌, leb, ltb, none, not, some, starts_with, suc, true, zero, ℕ, ℕ_eq, ◌&&◌, ◌++◌, ◌/◌,
  ◌==◌, ◌||◌, ◌∷◌,
}

-- `s.rstrip("/")`
unfoldable pub rstrip_slash : Text → Text
rstrip_slash [] = []
rstrip_slash (c ∷ s) =
    let rest = rstrip_slash s in
    elim rest [ [] ↦ if c == b'/' then [] else c ∷ [] | d ∷ ds ↦ c ∷ d ∷ ds ]

unfoldable pub is_public_path : List Text → Text → Bool
is_public_path public_paths request_path =
    any (λ p. (request_path == p) || starts_with (rstrip_slash p ++ b'/' ∷ []) request_path)
      public_paths

-- The printable ASCII characters but the backslash, and every character past ASCII.
unfoldable pub is_allowed_character : ℕ → Bool
is_allowed_character c = (leb 32 c && (leb c 126 && not (c == b'\\'))) || leb 128 c

-- `s.split("/")`, with the segment read so far in front.
unfoldable pub split_slash : Text → Text → List Text
split_slash segment [] = segment ∷ []
split_slash segment (c ∷ s) =
    if c == b'/' then segment ∷ split_slash [] s else split_slash (segment ++ c ∷ []) s

-- `segment.partition(";")[0] not in (".", "..")`
unfoldable pub is_ordinary_segment : Text → Bool
is_ordinary_segment segment =
    not ((before b';' segment == codes ".") || (before b';' segment == codes ".."))

unfoldable pub is_unambiguous_path : Text → Bool
is_unambiguous_path request_path =
    (starts_with (codes "/") request_path && not (starts_with (codes "//") request_path))
    && (all is_allowed_character request_path
        && all is_ordinary_segment (split_slash [] request_path))

abbrev pub max_public_path_checks : ℕ
max_public_path_checks = 8

module _ (unquote : Text → Option Text) where
  -- The rounds of decoding, with the number of rounds left.
  unfoldable pub is_public_decoded : ℕ → List Text → Text → Bool
  is_public_decoded zero public_paths request_path = false
  is_public_decoded (suc rounds) public_paths request_path =
      if not (is_unambiguous_path request_path && is_public_path public_paths request_path)
      then false
      else elim (unquote request_path) [
        | none ↦ false
        | some decoded ↦
            if decoded == request_path then true else is_public_decoded rounds public_paths decoded
      ]

  -- `raw_path.decode("ascii")` fails on a byte past ASCII.
  unfoldable pub is_public_request_path : List Text → Text → Bool
  is_public_request_path public_paths raw_path =
      if elem (codes "/") public_paths
      then true
      else if elem b'#' raw_path || elem b'?' raw_path
      then false
      else if not (all (λ c. ltb c 128) raw_path)
      then false
      else elim (unquote raw_path) [
        | none ↦ false
        | some request_path ↦ is_public_decoded max_public_path_checks public_paths request_path
      ]
