-- ===== src/Bundle/Names.antt =====
-- The loop that src/bundle/bundle_service.py and archive_keys share: each wanted name is made unique among those already given out.
pub mod Laws
use platform_api.Prelude.{List, Result, Text, [], after_last, and_then, map, ok, text, ◌++◌, ◌∷◌}
use platform_api.Bundle.Paths.{PathError, unique_path}

-- `name = unique_path(wanted, taken); taken.add(name)` for each wanted name
unfoldable pub unique_names : List Text → List Text → Result PathError (List Text)
unfolding unique_path
unique_names taken [] = ok []
unique_names taken (wanted ∷ rest) =
    and_then (unique_path wanted taken)
      λ name. and_then (unique_names (name ∷ taken) rest) λ names. ok (name ∷ names)

-- `archive_keys` of src/orchestrator/orchestrator_service.py
abbrev pub order_key : Text → Text → Text
order_key order_id name = text "orders/" ++ (order_id ++ (text "/" ++ name))

unfoldable pub archive_keys : Text → List Text → Result PathError (List Text)
unfolding unique_names
archive_keys order_id urls =
    and_then (unique_names [] (map (after_last b'/') urls))
      λ names. ok (map (order_key order_id) names)
