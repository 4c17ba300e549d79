-- ===== src/Text/FilePath.antt =====
-- `filepath.Base` and `filepath.Join` of a directory and a file name, on Unix.
use claude_bridge.Base.{◌≡◌, refl, [], ◌∷◌, ◌++◌, nat_eq, if◌then◌else◌}
use claude_bridge.Text.{Str, text, nonempty}

-- The last element that is not empty: `last` is the last one so far, `element` the present one.
last_element : Str → Str → Str → Str
last_element last element [] = if nonempty element then element else last
last_element last element (c ∷ path) =
    last_element (if nat_eq c b'/' then (if nonempty element then element else last) else last)
      (if nat_eq c b'/' then [] else element ++ c ∷ []) path

only_slashes : Str → Str
only_slashes [] = text "/"
only_slashes (c ∷ element) = c ∷ element

unfoldable pub base : Str → Str
unfolding last_element only_slashes
base [] = text "."
base (c ∷ path) = only_slashes (last_element [] [] (c ∷ path))

base_tests :
    (base (text "/home/me/api/") ≡ text "api")
    × (base (text "//") ≡ text "/")
    × (base [] ≡ text ".")
unfolding base
base_tests = (refl, refl, refl)
