-- ===== src/Feed/Lines.antt =====
-- The lines of a body, what they say, and what a scan that follows them gives.
use crowdshield.Prelude.{
  ◌∙◌, ◌||◌, ◌==◌, leb, sym, arith, length, bytes, ◌&&◌, ◌+◌, text_eq, is_empty, ◌++◌, ◌-◌, false,
  not, none, if◌then◌else◌, ◌≡◌, some, true, Text, List, Option, ℕ, Bool, refl, ap, [], ◌∷◌,
}
use mathlib.Core.List.{append-nil, append_assoc}
use crowdshield.Feed.Types.{Std, Limits, Format, Result, Checked, ◌>>=◌}
use crowdshield.Feed.Scan.{scan, scan_lines, lines_from, line_text, ends_in_newline}
use crowdshield.Feed.Parser.{cidr_of, strip_comment, family_matches}
use crowdshield.Feed.Parsed.{ok-injective, refuse_if-ok, >>=-ok, IsSuited}
use crowdshield.State.Records.{Entry}
use crowdshield.Network.Address.{is4, Prefix}
use crowdshield.Prelude.Spaces.{utf8_valid, fields, trim_space}
use crowdshield.Network.Normalize.{parse_value}
use crowdshield.Network.Safety.{Kind}
use crowdshield.App.Report.{ErrorClass}
use mathlib.Core.Path.{subst}
use crowdshield.Prelude.Int.{pos, ltb_ℤ}

-- The lines of a body, the first without its byte order mark.
abbrev pub texts : Bool → List Text → List Text
texts first [] = []
texts first (line ∷ lines) = line_text first line ∷ texts false lines

abbrev pub texts_of : Text → List Text
texts_of body = texts true (lines_from [] body)

module _ {A : Type 0} where
  abbrev pub number_of : (A → Bool) → List A → ℕ
  number_of q [] = 0
  number_of q (x ∷ xs) = (if q x then 1 else 0) + number_of q xs

  -- The values that elements have, in their order.
  abbrev pub values_of : {B : Type 0} → (A → Option B) → List A → List B
  values_of f [] = []
  values_of f (x ∷ xs) = elim (f x) [ none ↦ values_of f xs | some y ↦ y ∷ values_of f xs ]

-- Whether a line has a record that counts: it is not empty, and not the metadata of Spamhaus.
abbrev pub is_metadata : Option Text → Bool
is_metadata none = false
is_metadata (some type) = text_eq type (bytes "metadata")

module _ (std : Std) where
  abbrev pub is_record : Format → Text → Bool
  is_record Format.spamhaus_drop_jsonl line =
      not (is_empty (trim_space line)) && not (is_metadata (std.record_type (trim_space line)))
  is_record _ line = not (is_empty (strip_comment line))

  module _ (limits : Limits) where
    -- An indicator of the family that is asked for.
    abbrev pub of_family : Option (Prefix × Kind) → Option Entry
    of_family none = none
    of_family (some (p, k)) =
        if family_matches (is4 p.ip) limits.family
        then some (record { prefix = p; kind = k })
        else none

    abbrev pub sole_field : List Text → Option Entry
    sole_field (f ∷ []) = of_family (parse_value std.netip f)
    sole_field _ = none

    abbrev pub typed_entry : Text → Option Text → Option Entry
    typed_entry line (some []) = of_family (cidr_of std limits (std.record_cidr line))
    typed_entry line _ = none

    -- The entry of a line, if it has one: the only field of a line without its comment, or the range
    -- of a record of Spamhaus without a type.
    abbrev pub entry_at : Format → Text → Option Entry
    entry_at Format.spamhaus_drop_jsonl line =
        if is_empty (trim_space line)
        then none
        else typed_entry (trim_space line) (std.record_type (trim_space line))
    entry_at _ line = sole_field (fields (strip_comment line))

-- What a body that is accepted gives.
pub record IsParsed (std : Std) (limits : Limits) (format : Format) (body : Text) (r : Result)
    : Type 0 where
  pub total : r.total_records ≡ number_of (is_record std format) (texts_of body)
  pub entries : r.entries ≡ values_of (entry_at std limits format) (texts_of body)
  pub malformed : r.malformed ≡ r.total_records - length r.entries
  pub few_lines : ltb_ℤ limits.max_malformed_lines (pos r.malformed) ≡ false
  pub small_ratio :
      (r.total_records == 0
        || std.floats.le
            (std.floats.quotient
              (std.floats.of_int (pos r.malformed))
              (std.floats.of_int (pos r.total_records)))
            limits.max_malformed_ratio)
      ≡ true
  pub suited : IsSuited std limits format r

abbrev pub listed : {A : Type 0} → Option A → List A
listed none = []
listed (some x) = x ∷ []

-- A result with some more records and entries.
abbrev pub Adds : ℕ → List Entry → Result → Result → Type 0
Adds n xs r r' = (r'.total_records ≡ r.total_records + n) × (r'.entries ≡ r.entries ++ xs)

-- A result after one more line.
abbrev pub IsRead : Std → Limits → Format → Text → Result → Result → Type 0
IsRead std limits format line =
    Adds (if is_record std format line then 1 else 0) (listed (entry_at std limits format line))

values_of-cons :
    {A B : Type 0} (f : A → Option B) (x : A) (xs : List A)
    → values_of f (x ∷ xs) ≡ listed (f x) ++ values_of f xs
values_of-cons {B = B} f x xs = by_value (f x)
  where
    by_value :
        (y : Option B)
        → (elim y as (λ _. List B) [ none ↦ values_of f xs | some y ↦ y ∷ values_of f xs ])
          ≡ listed y ++ values_of f xs
    by_value none = refl
    by_value (some y) = refl

-- What every line does, the scan does with all lines.
module _ {S : Type 0} (std : Std) (limits : Limits) (format : Format) (result : S → Result)
    (limit : ℕ) (consume : S → Text → Checked S)
    (step : (s s' : S) (line : Text)
      → consume s line ≡ Checked.ok s'
      → IsRead std limits format line (result s) (result s')) where
  scan_lines-read :
      (first : Bool) (lines : List Text) (s s' : S)
      → scan_lines limit consume first lines s ≡ Checked.ok s'
      → ((result s').total_records
          ≡ (result s).total_records + number_of (is_record std format) (texts first lines))
        × ((result s').entries
            ≡ (result s).entries ++ values_of (entry_at std limits format) (texts first lines))
  unfolding scan_lines
  scan_lines-read first [] s s' h =
      subst
        (λ (u : S).
          ((result u).total_records ≡ (result s).total_records + 0)
          × ((result u).entries ≡ (result s).entries ++ []))
        (ok-injective s s' h) (omega arith, sym (append-nil (result s).entries))
  scan_lines-read first (line ∷ lines) s s' h =
      let text = line_text first line in
      let rest : S → Checked S = scan_lines limit consume false lines in
      let (_, g) = refuse_if-ok (leb limit (length line)) ErrorClass.line_too_long _ s' h in
      let (_, k) =
        refuse_if-ok (not (utf8_valid text)) ErrorClass.format (consume s text >>= rest) s' g in
      let (m, e, l) = >>=-ok (consume s text) rest s' k in
      let one = step s m text e in
      let (total, entries) = scan_lines-read false lines m s' l in
      (
        omega (arith, total, one.0),
        entries
            ∙ ap
                (λ (xs : List Entry).
                  xs ++ values_of (entry_at std limits format) (texts false lines))
                one.1
            ∙ append_assoc (result s).entries (listed (entry_at std limits format text)) _
            ∙ ap (λ (xs : List Entry). (result s).entries ++ xs)
                (sym (values_of-cons (entry_at std limits format) text (texts false lines))),
      )

  pub scan-read :
      (newline : Bool) (body : Text) (s s' : S)
      → scan limit consume newline body s ≡ Checked.ok s'
      → ((result s').total_records
          ≡ (result s).total_records + number_of (is_record std format) (texts_of body))
        × ((result s').entries
            ≡ (result s).entries ++ values_of (entry_at std limits format) (texts_of body))
  unfolding scan
  scan-read newline body s s' h =
      let (m, e, g) = >>=-ok (scan_lines limit consume true (lines_from [] body) s) _ s' h in
      let (_, k) = refuse_if-ok (is_empty body) ErrorClass.empty _ s' g in
      let (_, l) =
        refuse_if-ok (newline && not (ends_in_newline body)) ErrorClass.truncated (Checked.ok m) s'
          k in
      subst
        (λ (u : S).
          ((result u).total_records
            ≡ (result s).total_records + number_of (is_record std format) (texts_of body))
          × ((result u).entries
              ≡ (result s).entries ++ values_of (entry_at std limits format) (texts_of body)))
        (ok-injective m s' l) (scan_lines-read true (lines_from [] body) s m e)
