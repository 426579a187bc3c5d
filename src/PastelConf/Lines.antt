-- ===== src/PastelConf/Lines.antt =====
-- `bufio.Scanner` over the lines of a text, and the text that a list of lines makes. A line longer
-- than the scanner's buffer (64 kB), at which it would stop, is not modelled.
use mathlib.Core.List.{append-nil, append_assoc}
use pastelup.Base.{
  Str, false, List, [], ◌∷◌, ◌++◌, ◌==◌, is_empty, if◌then◌else◌, ◌≡◌, refl, ap, ◌∙◌, All,
}

-- A line loses one `\r` at its end.
unfoldable pub drop_cr : Str → Str
drop_cr [] = []
drop_cr (c ∷ []) = if c == b'\r' then [] else c ∷ []
drop_cr (c ∷ d ∷ s) = c ∷ drop_cr (d ∷ s)

-- `token` is the part of the line read so far. At the end of the text an empty rest is no line.
unfoldable pub scan_from : Str → Str → List Str
unfolding drop_cr
scan_from token [] = if is_empty token then [] else drop_cr token ∷ []
scan_from token (c ∷ s) =
    let ended = drop_cr token ∷ scan_from [] s in
    let longer = scan_from (token ++ c ∷ []) s in if c == b'\n' then ended else longer

unfoldable pub scan_lines : Str → List Str
unfolding scan_from
scan_lines = scan_from []

-- Each line with `\n` behind it
unfoldable pub unlines : List Str → Str
unlines [] = []
unlines (l ∷ ls) = l ++ (b'\n' ∷ unlines ls)

-- The bytes of one line of the file
abbrev pub IsLine : Str → Type 0
IsLine = All (λ c. ((c == b'\n') ≡ false) × ((c == b'\r') ≡ false))

drop_cr-IsLine : (s : Str) → IsLine s → drop_cr s ≡ s
unfolding drop_cr
drop_cr-IsLine [] h = refl
drop_cr-IsLine (c ∷ []) h = rw (h.0.1)
drop_cr-IsLine (c ∷ d ∷ s) h = ap (◌∷◌ c) (drop_cr-IsLine (d ∷ s) h.1)

scan_from-line :
    (token l rest : Str)
    → IsLine l
    → scan_from token (l ++ (b'\n' ∷ rest)) ≡ drop_cr (token ++ l) ∷ scan_from [] rest
unfolding scan_from
scan_from-line token [] rest h = rw append-nil
scan_from-line token (c ∷ l) rest h =
    rw (h.0.0) (scan_from-line (token ++ c ∷ []) l rest h.1 ∙ rw append_assoc)

-- The lines that were written are the lines that are read.
pub scan_lines-unlines : (ls : List Str) → All IsLine ls → scan_lines (unlines ls) ≡ ls
unfolding scan_lines unlines
scan_lines-unlines [] h = refl
scan_lines-unlines (l ∷ ls) h =
    scan_from-line [] l (unlines ls) h.0
    ∙ ap (λ (s : Str). s ∷ scan_from [] (unlines ls)) (drop_cr-IsLine l h.0)
    ∙ ap (◌∷◌ l) (scan_lines-unlines ls h.1)
