-- ===== src/Feed/Scan.antt =====
-- internal/feed/parser.go: `scan`, which reads a body line by line with bufio.Scanner.
use crowdshield.Feed.Types.{◌>>=◌, Checked, refuse_if}
use crowdshield.App.Report.{ErrorClass}
use crowdshield.Prelude.Spaces.{utf8_valid}
use crowdshield.Prelude.{
  not, length, ◌&&◌, ◌++◌, leb, ◌==◌, [], is_empty, if◌then◌else◌, false, List, true, ◌∷◌, Text,
  Bool, ℕ,
}

-- The lines of a body, without their newlines; the last may lack one.
unfoldable pub lines_from : Text → Text → List Text
lines_from line [] = if is_empty line then [] else line ∷ []
lines_from line (c ∷ s) =
    let rest = lines_from (if c == 10 then [] else line ++ c ∷ []) s in
    if c == 10 then line ∷ rest else rest

-- Without a carriage return at the end.
unfoldable pub drop_return : Text → Text
drop_return [] = []
drop_return (c ∷ []) = if c == 13 then [] else c ∷ []
drop_return (c ∷ d ∷ s) = c ∷ drop_return (d ∷ s)

-- `strings.TrimPrefix(text, "\ufeff")`
abbrev pub drop_mark : Text → Text
drop_mark (a ∷ b ∷ c ∷ s) = if a == 0xef && b == 0xbb && c == 0xbf then s else a ∷ b ∷ c ∷ s
drop_mark s = s

unfoldable pub line_text : Bool → Text → Text
unfolding drop_return
line_text first line = if first then drop_mark (drop_return line) else drop_return line

unfoldable pub ends_in_newline : Text → Bool
ends_in_newline [] = false
ends_in_newline (c ∷ []) = c == 10
ends_in_newline (c ∷ d ∷ s) = ends_in_newline (d ∷ s)

module _ {S : Type 0} (limit : ℕ) (consume : S → Text → Checked S) where
  -- The loop. The scanner's buffer takes `limit` bytes, the newline among them.
  unfoldable pub scan_lines : Bool → List Text → S → Checked S
  unfolding utf8_valid line_text
  scan_lines first [] s = Checked.ok s
  scan_lines first (line ∷ lines) s = refuse_if (leb limit (length line)) ErrorClass.line_too_long (
      refuse_if (not (utf8_valid (line_text first line))) ErrorClass.format
        (consume s (line_text first line) >>= scan_lines false lines))

  unfoldable pub scan : Bool → Text → S → Checked S
  unfolding lines_from scan_lines ends_in_newline
  scan require_final_newline body s = scan_lines true (lines_from [] body) s >>= λ s'.
      refuse_if (is_empty body) ErrorClass.empty (
        refuse_if (require_final_newline && not (ends_in_newline body)) ErrorClass.truncated
          (Checked.ok s'))
