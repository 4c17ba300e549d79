-- ===== src/Text/Clean.antt =====
-- `filepath.Clean` and `filepath.Join` of two elements, on Unix.
use claude_bridge.Base.{
  ◌≡◌, refl, Bool, false, ◌||◌, not, List, [], ◌∷◌, ◌++◌, nat_eq, if◌then◌else◌,
}
use claude_bridge.Text.{Str, text, nonempty, ◌==◌}

-- The elements between slashes, the first of which has begun with `element`.
unfoldable elements : Str → Str → List Str
elements element [] = element ∷ []
elements element (c ∷ path) =
    let next = elements [] path in
    let longer = elements (element ++ c ∷ []) path in
    if nat_eq c b'/' then element ∷ next else longer

abbrev up : Str
up = text ".."

-- ".." takes back the element before it, and is dropped at the root. The stack has the last first.
abbrev ascend : Bool → List Str → List Str
ascend rooted [] = if rooted then [] else up ∷ []
ascend rooted (e ∷ stack) = if e == up then up ∷ e ∷ stack else stack

unfoldable resolve : Bool → List Str → List Str → List Str
resolve rooted stack [] = stack
resolve rooted stack (e ∷ es) =
    resolve rooted
      (if not (nonempty e) || e == text "."
        then stack
        else (if e == up then ascend rooted stack else e ∷ stack))
      es

-- The path of a stack of elements.
unfoldable joined : List Str → Str
joined [] = []
joined (e ∷ []) = e
joined (e ∷ d ∷ stack) = joined (d ∷ stack) ++ b'/' ∷ e

abbrev rooted : Str → Bool
rooted [] = false
rooted (c ∷ path) = nat_eq c b'/'

unfoldable pub clean : Str → Str
unfolding elements resolve joined
clean path =
    let found = joined (resolve (rooted path) [] (elements [] path)) in
    if rooted path then b'/' ∷ found else (if nonempty found then found else text ".")

unfoldable pub join : Str → Str → Str
unfolding clean
join [] [] = []
join [] (c ∷ name) = clean (c ∷ name)
join (c ∷ dir) name = clean (c ∷ dir ++ b'/' ∷ name)

join_tests :
    (join (text "/tmp/") (text "sock") ≡ text "/tmp/sock")
    × (join (text "/run/../tmp/./x//") (text "../../../sock") ≡ text "/sock")
    × (join [] (text "a/..") ≡ text ".")
    × (join (text "..") (text "../sock") ≡ text "../../sock")
unfolding join clean elements resolve joined ◌==◌
join_tests = (refl, refl, refl, refl)
