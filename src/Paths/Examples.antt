-- ===== src/Paths/Examples.antt =====
-- The theorems on path mappings at concrete paths.
use metafusion.Paths.{
  translate_plex_path, parse_path_mappings, parse_all, parse_mapping, sort_mappings, insert_mapping,
  translate_with, ok, check_mapping, clean, Mapping,
}
use metafusion.Paths.Contained.{TranslatedBy, translate_plex_path-Translated}
use metafusion.Paths.Mappings.{SafeMapping, AllMappings, Distinct, Descending}
use metafusion.Paths.Parsed.{arrow, parse-written, parse_path_mappings_sound}
use metafusion.Paths.Texts.{
  Chars, partition_arrow, after_prefix, rstrip, lstrip, replace_backslashes, components,
  split_slashes, chars_eq,
}
use metafusion.Prelude.{◌==◌, ◌≡◌, ◌∷◌, refl, [], ℕ, Bool, ◌++◌, List, length}

abbrev is_space : ℕ → Bool
is_space c = c == 32

abbrev media_mapping : Chars
media_mapping = 32 ∷ 47 ∷ 109 ∷ 61 ∷ 62 ∷ 47 ∷ 120 ∷ 47 ∷ 121 ∷ 47 ∷ []

abbrev deep_mapping : Chars
deep_mapping = 47 ∷ 109 ∷ 47 ∷ 97 ∷ 61 ∷ 62 ∷ 47 ∷ 122 ∷ []

abbrev film_path : Chars
film_path = 47 ∷ 109 ∷ 47 ∷ 97 ∷ 47 ∷ 98 ∷ []

film_path_translated :
    translate_plex_path is_space film_path (media_mapping ∷ deep_mapping ∷ [])
    ≡ ok (1, (122 ∷ []) ∷ (98 ∷ []) ∷ [])
unfolding translate_plex_path parse_path_mappings parse_all parse_mapping sort_mappings
    insert_mapping translate_with partition_arrow after_prefix rstrip lstrip replace_backslashes
    components split_slashes chars_eq check_mapping
film_path_translated = refl

translate_plex_path-Translated_example :
    TranslatedBy is_space film_path
      (media_mapping ∷ deep_mapping ∷ [])
      (1, (122 ∷ []) ∷ (98 ∷ []) ∷ [])
translate_plex_path-Translated_example =
    translate_plex_path-Translated is_space film_path (media_mapping ∷ deep_mapping ∷ [])
      (1, (122 ∷ []) ∷ (98 ∷ []) ∷ []) film_path_translated

abbrev parsed_mappings : List Mapping
parsed_mappings =
    (47 ∷ 109 ∷ 47 ∷ 97 ∷ [], 47 ∷ 122 ∷ []) ∷ (47 ∷ 109 ∷ [], 47 ∷ 120 ∷ 47 ∷ 121 ∷ []) ∷ []

mappings_parsed :
    parse_path_mappings is_space (media_mapping ∷ deep_mapping ∷ []) ≡ ok parsed_mappings
unfolding parse_path_mappings parse_all parse_mapping check_mapping sort_mappings insert_mapping
    partition_arrow after_prefix rstrip lstrip replace_backslashes components split_slashes chars_eq
mappings_parsed = refl

parse_path_mappings_sound_example :
    (length parsed_mappings ≡ 2)
    × AllMappings SafeMapping parsed_mappings
    × Distinct parsed_mappings
    × Descending parsed_mappings
parse_path_mappings_sound_example =
    parse_path_mappings_sound is_space (media_mapping ∷ deep_mapping ∷ []) parsed_mappings
      mappings_parsed

abbrev source : Chars
source = 47 ∷ 109 ∷ []

abbrev destination : Chars
destination = 47 ∷ 122 ∷ []

source_clean : clean is_space source ≡ source
unfolding rstrip lstrip replace_backslashes
source_clean = refl

destination_clean : clean is_space destination ≡ destination
unfolding rstrip lstrip replace_backslashes
destination_clean = refl

pair_safe : SafeMapping (source, destination)
unfolding components split_slashes chars_eq
pair_safe = record {
  source_absolute = refl;
  destination_absolute = refl;
  source_stays = refl;
  destination_stays = refl;
}

parse-written_example :
    parse_path_mappings is_space ((source ++ (arrow ++ destination)) ∷ [])
    ≡ ok ((source, destination) ∷ [])
parse-written_example =
    parse-written is_space source destination refl source_clean destination_clean pair_safe
