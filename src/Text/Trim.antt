-- ===== src/Text/Trim.antt =====
-- `strings.TrimSpace`, for ASCII text.
use claude_bridge.Base.{◌&&◌, [], ◌∷◌, not, if◌then◌else◌}
use claude_bridge.Text.{Str, nonempty}
use claude_bridge.Text.Words.{is_space}

unfoldable pub trim_left : Str → Str
trim_left [] = []
trim_left (c ∷ s) = let rest = trim_left s in if is_space c then rest else c ∷ s

unfoldable pub trim_right : Str → Str
trim_right [] = []
trim_right (c ∷ s) =
    let rest = trim_right s in if is_space c && not (nonempty rest) then [] else c ∷ rest

abbrev pub trim_space : Str → Str
trim_space s = trim_right (trim_left s)
