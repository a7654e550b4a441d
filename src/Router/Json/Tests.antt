-- ===== src/Router/Json/Tests.antt =====
-- Searches in a small reply.
use homelink_monitor.Base.{
  ℕ, ◌≡◌, refl, true, [], ◌∷◌, bytes, text_eq, contains, has_prefix, split, split_from, trim_space,
  trim_left, trim_right,
}
use homelink_monitor.Router.Json.{
  Json, flag, text, array, object, nil, item, end, field, find_string, find_path, find_string_list,
  list_in_objects, texts_of, find_in_objects, first_string, get, collect_objects,
}

-- {"success": true, "data": {"stok": " s ", "key": ["n", "e"]}}
abbrev reply : Json ℕ
reply = object (
    field (bytes "success") (flag true) (
      field (bytes "data")
        (object (
          field (bytes "stok") (text (32 ∷ b's' ∷ 32 ∷ [])) (
            field (bytes "key") (array (item (text (b'n' ∷ [])) (item (text (b'e' ∷ [])) nil)))
              end)))
        end))

trimmed_stok : find_string reply (bytes "stok" ∷ []) ≡ b's' ∷ []
unfolding find_string bytes contains has_prefix find_in_objects first_string get text_eq
    collect_objects trim_space trim_left trim_right
trimmed_stok = refl

-- A path is not trimmed.
path_stok : find_string reply (bytes "data.stok" ∷ []) ≡ 32 ∷ b's' ∷ 32 ∷ []
unfolding find_string bytes contains has_prefix find_path split split_from get text_eq
path_stok = refl

two_keys : find_string_list reply (bytes "key") ≡ (b'n' ∷ []) ∷ (b'e' ∷ []) ∷ []
unfolding find_string_list list_in_objects texts_of bytes get text_eq collect_objects
two_keys = refl
