-- ===== src/Bundle/Examples.antt =====
-- Two entries of one archive.
use quickworks.Base.{ℕ, ◌≡◌, refl, Bool, true, false, some, List, [], ◌∷◌, ◌++◌}
use quickworks.Text.{bytes, same, has_prefix, split, join}
use quickworks.Bundle.{relative_archive_path, split_name, archive_path}
use quickworks.Text.Paths.{clean, join_path}
use quickworks.Bundle.Links.{
  up_to_slash, filled_parts, elements, rel_elements, resolved, symlink_stays_in_root,
  symlink_stays_in_root-Under,
}
use quickworks.Bundle.Containment.{walk, onto, archive_path-walk}

abbrev entries : List (List ℕ × Bool)
entries = (bytes "wb/", true) ∷ (bytes "wb/bin", false) ∷ []

accepts : archive_path (bytes "wb/bin") false ≡ some (bytes "wb/bin", bytes "wb")
unfolding archive_path relative_archive_path has_prefix split split_name same
accepts = refl

archive_path-walk_example :
    (rest : List (List ℕ)) × (split b'/' (bytes "wb/bin") ≡ bytes "wb" ∷ rest)
    × (walk (split b'/' (bytes "wb/bin")) [] ≡ some (onto rest (bytes "wb" ∷ [])))
archive_path-walk_example =
    archive_path-walk (bytes "wb/bin") false (bytes "wb/bin") (bytes "wb") accepts

-- A link that leaves the archive's directory only by way of another link.
accepts_link :
    symlink_stays_in_root (bytes "/v/wb/y") (bytes "d/x/../..") (bytes "/v") (bytes "wb") ≡ true
unfolding symlink_stays_in_root up_to_slash filled_parts rel_elements split same has_prefix clean
    join_path join
accepts_link = refl

symlink_stays_in_root-Under_example :
    (rest : List (List ℕ)) × (elements (resolved (bytes "/v/wb/y") (bytes "d/x/../.."))
      ≡ elements (join_path (bytes "/v") (bytes "wb")) ++ rest)
symlink_stays_in_root-Under_example =
    symlink_stays_in_root-Under (bytes "/v/wb/y") (bytes "d/x/../..") (bytes "/v") (bytes "wb")
      accepts_link
