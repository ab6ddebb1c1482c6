-- ===== src/Paths/Texts.antt =====
-- Texts as lists of code points, and what helper/plex_paths.py uses of Python's texts and of
-- `PurePosixPath`.
use metafusion.Prelude.{
  ◌==◌, if◌then◌else◌, ◌&&◌, ◌||◌, ◌∷◌, [], true, false, none, some, List, ℕ, Bool, Option, not,
  ltb, any,
}

abbrev pub Chars : Type 0
Chars = List ℕ

abbrev pub slash : ℕ
slash = 47

abbrev pub backslash : ℕ
backslash = 92

abbrev pub dot : ℕ
dot = 46

unfoldable pub chars_eq : Chars → Chars → Bool
chars_eq [] [] = true
chars_eq [] (d ∷ t) = false
chars_eq (c ∷ s) [] = false
chars_eq (c ∷ s) (d ∷ t) = c == d && chars_eq s t

abbrev pub is_blank : Chars → Bool
is_blank [] = true
is_blank (c ∷ s) = false

-- `replace("\\", "/")`
unfoldable pub replace_backslashes : Chars → Chars
replace_backslashes [] = []
replace_backslashes (c ∷ s) = (if c == backslash then slash else c) ∷ replace_backslashes s

-- `lstrip`, of the code points with a property.
unfoldable pub lstrip : (ℕ → Bool) → Chars → Chars
lstrip p [] = []
lstrip p (c ∷ s) = let rest = lstrip p s in if p c then rest else c ∷ s

abbrev pub strip_front : (ℕ → Bool) → ℕ → Chars → Chars
strip_front p c [] = if p c then [] else c ∷ []
strip_front p c (d ∷ s) = c ∷ d ∷ s

-- `rstrip`
unfoldable pub rstrip : (ℕ → Bool) → Chars → Chars
rstrip p [] = []
rstrip p (c ∷ s) = strip_front p c (rstrip p s)

abbrev pub strip : (ℕ → Bool) → Chars → Chars
strip p s = lstrip p (rstrip p s)

abbrev pub is_slash : ℕ → Bool
is_slash c = c == slash

-- What follows a prefix, where there is one.
unfoldable pub after_prefix : Chars → Chars → Option Chars
after_prefix [] s = some s
after_prefix (c ∷ p) [] = none
after_prefix (c ∷ p) (d ∷ s) = let rest = after_prefix p s in if c == d then rest else none

-- The text up to the first separator and after it.
abbrev pub cut_front : ℕ → Option (Chars × Chars) → Option (Chars × Chars)
cut_front c none = none
cut_front c (some (front, back)) = some (c ∷ front, back)

-- `partition("=>")`, with `none` where there is no separator.
unfoldable pub partition_arrow : Chars → Option (Chars × Chars)
partition_arrow [] = none
partition_arrow (c ∷ s) =
    let rest = partition_arrow s in
    elim (after_prefix (61 ∷ 62 ∷ []) (c ∷ s)) [
      | some back ↦ some ([], back)
      | none ↦ cut_front c rest
    ]

abbrev pub push : ℕ → List Chars → List Chars
push c [] = (c ∷ []) ∷ []
push c (w ∷ ws) = (c ∷ w) ∷ ws

-- `split("/")`
unfoldable pub split_slashes : Chars → List Chars
split_slashes [] = [] ∷ []
split_slashes (c ∷ s) = let rest = split_slashes s in if c == slash then [] ∷ rest else push c rest

-- A path's component: neither empty nor a dot.
abbrev pub is_component : Chars → Bool
is_component w = not (is_blank w || chars_eq w (dot ∷ []))

abbrev pub components_of : List Chars → List Chars
components_of [] = []
components_of (w ∷ ws) = let rest = components_of ws in if is_component w then w ∷ rest else rest

-- The components of `PurePosixPath(s).parts`, the root apart.
unfoldable pub components : Chars → List Chars
components s = components_of (split_slashes s)

-- The number of slashes of the root: of three or more slashes in front, one.
abbrev pub root_of : Chars → ℕ
root_of [] = 0
root_of (a ∷ []) = if a == slash then 1 else 0
root_of (a ∷ b ∷ []) = if a == slash then (if b == slash then 2 else 1) else 0
root_of (a ∷ b ∷ c ∷ s) =
    if a == slash then (if b == slash && not (c == slash) then 2 else 1) else 0

abbrev pub is_absolute : Chars → Bool
is_absolute s = ltb 0 (root_of s)

-- `".." in PurePosixPath(s).parts`
abbrev pub has_parent : List Chars → Bool
has_parent ws = any (chars_eq (dot ∷ dot ∷ [])) ws
