-- ===== src/Paths.antt =====
-- `parse_path_mappings` and `translate_plex_path` of helper/plex_paths.py. Texts are lists of code
-- points; which of them are white space, for `strip`, is an argument.
pub mod Texts
pub mod Mappings
pub mod Parsed
pub mod Longest
pub mod Contained
mod Examples
use metafusion.Paths.Texts.{
  Chars, rstrip, partition_arrow, slash, lstrip, replace_backslashes, is_slash, is_blank, chars_eq,
  strip, is_absolute, after_prefix, has_parent, components, root_of,
}
use metafusion.Prelude.{
  if◌then◌else◌, ◌||◌, ◌∷◌, ◌++◌, [], true, false, none, some, Bool, ℕ, List, Option, leb, not,
  length, any,
}

pub data PathError : Type 0 where
  malformed_mapping relative_source relative_destination unsafe_mapping duplicate_source : PathError
  empty_path relative_path unsafe_path : PathError

pub data Result (A : Type 0) : Type 0 where
  ok : A → Result A
  raised : PathError → Result A

infixl 1 ◌>>=◌
abbrev pub ◌>>=◌ : {A B : Type 0} → Result A → (A → Result B) → Result B
ok a >>= f = f a
raised e >>= f = raised e

-- A guard that raises an error where the test holds.
abbrev pub refuse : Bool → PathError → Result Bool
refuse false e = ok true
refuse true e = raised e

-- A mapping: its source and its destination.
abbrev pub Mapping : Type 0
Mapping = Chars × Chars

-- `strip().replace("\\", "/").rstrip("/")`
abbrev pub clean : (ℕ → Bool) → Chars → Chars
clean is_space s = rstrip is_slash (replace_backslashes (strip is_space s))

abbrev pub separated : (ℕ → Bool) → Option (Chars × Chars) → Result Mapping
separated is_space none = raised malformed_mapping
separated is_space (some (front, back)) =
    let source = clean is_space front in
    let destination = clean is_space back in
    if is_blank source || is_blank destination
    then raised malformed_mapping
    else ok (source, destination)

-- The guards on a mapping, with the sources so far.
unfoldable pub check_mapping : List Chars → Mapping → Result Mapping
check_mapping sources pair = do
  _ ← refuse (not (is_absolute pair.0)) relative_source
  _ ← refuse (not (is_absolute pair.1)) relative_destination
  _ ← refuse (has_parent (components pair.0) || has_parent (components pair.1)) unsafe_mapping
  _ ← refuse (any (chars_eq pair.0) sources) duplicate_source
  ok pair

-- One turn of the loop of `parse_path_mappings`.
unfoldable pub parse_mapping : (ℕ → Bool) → List Chars → Chars → Result Mapping
parse_mapping is_space sources raw =
    separated is_space (partition_arrow raw) >>= check_mapping sources

unfoldable pub parse_all : (ℕ → Bool) → List Chars → List Chars → Result (List Mapping)
parse_all is_space sources [] = ok []
parse_all is_space sources (raw ∷ values) = do
  pair ← parse_mapping is_space sources raw
  rest ← parse_all is_space (pair.0 ∷ sources) values
  ok (pair ∷ rest)

-- The stable sort by the length of the source, the longest first.
unfoldable pub insert_mapping : Mapping → List Mapping → List Mapping
insert_mapping m [] = m ∷ []
insert_mapping m (n ∷ ms) =
    let rest = insert_mapping m ms in if leb (length n.0) (length m.0) then m ∷ n ∷ ms else n ∷ rest

unfoldable pub sort_mappings : List Mapping → List Mapping
sort_mappings [] = []
sort_mappings (m ∷ ms) = insert_mapping m (sort_mappings ms)

-- `parse_path_mappings`
unfoldable pub parse_path_mappings : (ℕ → Bool) → List Chars → Result (List Mapping)
parse_path_mappings is_space values = do
  mappings ← parse_all is_space [] values
  ok (sort_mappings mappings)

-- What follows a source, where the path is the source or lies under it.
abbrev pub below : Chars → Chars → Option Chars
below original source =
    if chars_eq original source then some [] else after_prefix (source ++ (slash ∷ [])) original

abbrev pub join_suffix : Chars → Chars → Chars
join_suffix destination [] = destination
join_suffix destination (c ∷ suffix) = destination ++ (slash ∷ c ∷ suffix)

-- The loop of `translate_plex_path`.
unfoldable pub translate_with : Chars → List Mapping → Chars
translate_with original [] = original
translate_with original (m ∷ mappings) =
    let rest = translate_with original mappings in
    elim (below original m.0) [
      | none ↦ rest
      | some suffix ↦ join_suffix m.1 (lstrip is_slash suffix)
    ]

-- `str(PurePosixPath(s))`, as its root and its components.
abbrev pub Normal : Type 0
Normal = ℕ × List Chars

-- `translate_plex_path`, of a value that is a text.
unfoldable pub translate_plex_path : (ℕ → Bool) → Chars → List Chars → Result Normal
translate_plex_path is_space value values = do
  original ← ok (replace_backslashes (strip is_space value))
  _ ← refuse (is_blank original) empty_path
  mappings ← parse_path_mappings is_space values
  translated ← ok (translate_with original mappings)
  _ ← refuse (not (is_absolute translated)) relative_path
  _ ← refuse (has_parent (components translated)) unsafe_path
  ok (root_of translated, components translated)
