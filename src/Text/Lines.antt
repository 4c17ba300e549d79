-- ===== src/Text/Lines.antt =====
-- `bufio.Scanner` with ScanLines and a limit on the size of its buffer.
use mathlib.Core.List.{append-nil, append_assoc}
use claude_bridge.Base.{
  length-append, ℕ, ◌<◌, ◌≡◌, refl, ap, ◌∙◌, Bool, true, false, List, [], ◌∷◌, ◌++◌, arith, leb,
  nat_eq, length, if◌then◌else◌, All,
}
use claude_bridge.Text.{Str}

abbrev pub newline : ℕ
newline = 10

abbrev carriage_return : ℕ
carriage_return = 13

-- The lines, and whether scanning stopped at a line that does not fit into the buffer.
pub record Scanned : Type 0 where
  pub lines : List Str
  pub too_long : Bool

-- A carriage return at the end of a line is dropped.
unfoldable pub drop_cr : Str → Str
drop_cr [] = []
drop_cr (c ∷ []) = if nat_eq c carriage_return then [] else c ∷ []
drop_cr (c ∷ d ∷ s) = c ∷ drop_cr (d ∷ s)

abbrev add_line : Str → Scanned → Scanned
add_line l sc = record sc { lines = drop_cr l ∷ sc.lines }

abbrev last_line : Str → List Str
last_line [] = []
last_line (c ∷ s) = drop_cr (c ∷ s) ∷ []

abbrev pub stopped : Scanned
stopped = record { lines = []; too_long = true }

-- The scanner has `line` in its buffer, which has no newline.
unfoldable pub scan_from : ℕ → Str → Str → Scanned
unfolding drop_cr
scan_from max line [] =
    if leb max (length line) then stopped else record { lines = last_line line; too_long = false }
scan_from max line (c ∷ s) =
    let next = scan_from max [] s in
    let longer = scan_from max (line ++ c ∷ []) s in
    if leb max (length line)
    then stopped
    else (if nat_eq c newline then add_line line next else longer)

abbrev pub scan : ℕ → Str → Scanned
scan max s = scan_from max [] s

-- Lines written one after another, each with a newline.
unfoldable pub written_lines : List Str → Str
written_lines [] = []
written_lines (l ∷ ls) = l ++ newline ∷ written_lines ls

-- A line that the scanner gives back as it was written.
pub record IsLine (max : ℕ) (l : Str) : Type 0 where
  pub short : length l < max
  pub single : All (λ c. nat_eq c newline ≡ false) l
  pub bare : drop_cr l ≡ l

scan_from-line :
    (max : ℕ) (line l s : Str)
    → length (line ++ l) < max
    → All (λ c. nat_eq c newline ≡ false) l
    → scan_from max line (l ++ newline ∷ s) ≡ add_line (line ++ l) (scan_from max [] s)
unfolding scan_from
scan_from-line max line [] s h single = ground (arith, append-nil line, length-append line [])
scan_from-line max line (c ∷ l) s h single =
    let assoc : (line ++ c ∷ []) ++ l ≡ line ++ c ∷ l = append_assoc line (c ∷ []) l in
    let step = scan_from-line max (line ++ c ∷ []) l s (rw assoc h) single.1 in
    let fits : leb max (length line) ≡ false = ground (arith, length-append line (c ∷ l)) in
    rw (fits, single.0) (step ∙ ap (λ x. add_line x (scan_from max [] s)) assoc)

pub scan-written_lines :
    (max : ℕ) (ls : List Str)
    → 0 < max
    → All (IsLine max) ls
    → scan max (written_lines ls) ≡ record { lines = ls; too_long = false }
unfolding scan_from written_lines
scan-written_lines max [] pos h = ground arith
scan-written_lines max (l ∷ ls) pos (h, hs) =
    scan_from-line max [] l (written_lines ls) h.short h.single
    ∙ rw (scan-written_lines max ls pos hs, h.bare) refl
