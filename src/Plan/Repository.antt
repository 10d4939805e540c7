-- ===== src/Plan/Repository.antt =====
-- internal/plan/run_grant.go: NormalizeRepository and normalizeRepositories. strings.ToLower is the
-- parameter `to_lower`.
use mcpx.Base.{
  ℕ, Bool, false, not, ◌&&◌, ◌||◌, Option, none, some, List, [], ◌∷◌, ◌++◌, reverse, if◌then◌else◌,
  ◌==◌, ltb, any, drop, length, Bytes, codes, str_eq, has_prefix, trim_space,
}

-- strings.TrimPrefix
unfoldable pub trim_prefix : Bytes → Bytes → Bytes
trim_prefix s p = if has_prefix s p then drop (length p) s else s

-- strings.TrimSuffix
unfoldable pub trim_suffix : Bytes → Bytes → Bytes
unfolding trim_prefix
trim_suffix s p = reverse (trim_prefix (reverse s) (reverse p))

unfoldable pub prepend : ℕ → List Bytes → List Bytes
prepend c [] = (c ∷ []) ∷ []
prepend c (s ∷ parts) = (c ∷ s) ∷ parts

-- strings.Split at one byte
unfoldable pub split_at : ℕ → Bytes → List Bytes
unfolding prepend
split_at c [] = [] ∷ []
split_at c (x ∷ s) = if x == c then [] ∷ split_at c s else prepend x (split_at c s)

-- The bytes of " *?\\".
abbrev pub is_wild : ℕ → Bool
is_wild c = c == 32 || c == b'*' || c == b'?' || c == 92

abbrev pub slash : ℕ
slash = b'/'

unfoldable pub two_parts : List Bytes → Bool
two_parts (owner ∷ name ∷ []) = not (str_eq owner []) && not (str_eq name [])
two_parts _ = false

-- The four prefixes, one after the other.
unfoldable pub strip_host : Bytes → Bytes
unfolding trim_prefix
strip_host s =
    let a = trim_prefix s (codes "https://github.com/") in
    let b = trim_prefix a (codes "http://github.com/") in
    let c = trim_prefix b (codes "git@github.com:") in trim_prefix c (codes "github.com/")

-- The test of the last branch.
unfoldable pub well_formed : Bytes → Bool
unfolding two_parts split_at
well_formed value = two_parts (split_at slash value) && not (any is_wild value)

unfoldable pub contains_string : List Bytes → Bytes → Bool
contains_string values wanted = any (λ v. str_eq v wanted) values

module _ (to_lower : Bytes → Bytes) where
  unfoldable pub normalize_repository : Bytes → Bytes
  unfolding strip_host trim_suffix well_formed
  normalize_repository raw =
      let bare = strip_host (to_lower (trim_space raw)) in
      let value = trim_suffix (trim_suffix bare (codes "/")) (codes ".git") in
      if well_formed value then value else []

  unfoldable pub normalize_all : List Bytes → List Bytes → Option (List Bytes)
  unfolding normalize_repository contains_string
  normalize_all result [] = some result
  normalize_all result (raw ∷ values) =
      let value = normalize_repository raw in
      let next =
        normalize_all (if contains_string result value then result else result ++ value ∷ [])
          values in
      if str_eq value [] then none else next

  unfoldable pub normalize_repositories : List Bytes → Option (List Bytes)
  unfolding normalize_all
  normalize_repositories values =
      if length values == 0 || ltb 20 (length values) then none else normalize_all [] values
