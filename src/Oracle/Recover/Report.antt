-- ===== src/Oracle/Recover/Report.antt =====
-- `queryTarget` of core/src/oracle/recover.ts on a report in the form that its comment gives: the
-- integrity line, then a key and a digest on a line for each value.
use crash_fuzz.Prelude.{
  ℕ, ◌≡◌, refl, sym, ap, ◌∙◌, Bool, true, false, List, [], ◌∷◌, ◌++◌, Option, some, arith, All,
  append_assoc, All-append, nat_beq,
}
use crash_fuzz.Prelude.Text.{Text, codes, text_eq, split, trim, starts_with}
use crash_fuzz.Prelude.Dict.{Dict, set}
use crash_fuzz.Prelude.Split.{Lacks, split_at_sep, split_whole, starts_with-append}
use crash_fuzz.Oracle.Verdict.{RecoveryResult}
use crash_fuzz.Oracle.Recover.{
  Reading, integrity_mark, add_parts, read_line, read_lines, detail_of, query_target,
}

-- What the tool prints.
abbrev pub status_text : Bool → Text
status_text true = codes "ok"
status_text false = codes "failed"

abbrev pub value_lines : List (Text × Text) → Text
value_lines [] = []
value_lines ((key, digest) ∷ pairs) = key ++ 0x20 ∷ (digest ++ 0x0a ∷ value_lines pairs)

abbrev pub report_text : Bool → List (Text × Text) → Text
report_text ok pairs = integrity_mark ++ (status_text ok ++ 0x0a ∷ value_lines pairs)

-- A key and a digest that a line can carry.
pub record IsReportable (pair : Text × Text) : Type 0 where
  pub key_space : Lacks 0x20 pair.0
  pub key_line : Lacks 0x0a pair.0
  pub digest_space : Lacks 0x20 pair.1
  pub digest_line : Lacks 0x0a pair.1
  pub no_mark : starts_with integrity_mark pair.0 ≡ false

-- The values in the order of the lines, a later one of a key in the place of an earlier.
abbrev pub set_pairs : List (Text × Text) → Dict Text Text → Dict Text Text
set_pairs [] values = values
set_pairs ((key, digest) ∷ pairs) values = set_pairs pairs (set key digest values)

mark-Lacks : Lacks 0x20 integrity_mark
mark-Lacks = ground arith

read_line-value :
    (key digest : Text) (reading : Reading)
    → IsReportable (key, digest)
    → read_line (key ++ 0x20 ∷ digest) reading
      ≡ record reading { values = set key digest reading.values }
unfolding read_line add_parts
read_line-value key digest reading r =
    rw
      (
        starts_with-append 0x20 integrity_mark key digest mark-Lacks,
        r.no_mark,
        split_at_sep 0x20 key digest r.key_space,
        split_whole 0x20 digest r.digest_space,
      )
      refl

read_lines-cons_value :
    (key digest : Text) (lines : List Text) (reading : Reading)
    → IsReportable (key, digest)
    → read_lines ((key ++ 0x20 ∷ digest) ∷ lines) reading
      ≡ read_lines lines (record reading { values = set key digest reading.values })
unfolding read_lines
read_lines-cons_value [] digest lines reading r =
    ap (read_lines lines) (read_line-value [] digest reading r)
read_lines-cons_value (c ∷ key) digest lines reading r =
    ap (read_lines lines) (read_line-value (c ∷ key) digest reading r)

-- The lines of the values, read to the end of the text.
read_lines-value_lines :
    (pairs : List (Text × Text)) (reading : Reading)
    → All IsReportable pairs
    → read_lines (split 0x0a (value_lines pairs)) reading
      ≡ record reading { values = set_pairs pairs reading.values }
unfolding read_lines
read_lines-value_lines [] reading h = refl
read_lines-value_lines ((key, digest) ∷ pairs) reading (r, h) =
    ap (λ t. read_lines (split 0x0a t) reading)
      (sym (append_assoc key (0x20 ∷ digest) (0x0a ∷ value_lines pairs)))
    ∙ ap (λ ls. read_lines ls reading)
        (split_at_sep 0x0a (key ++ 0x20 ∷ digest) (value_lines pairs) (
          All-append (λ c. nat_beq c 0x0a ≡ false) key (0x20 ∷ digest) r.key_line
            (refl, r.digest_line)))
    ∙ read_lines-cons_value key digest (split 0x0a (value_lines pairs)) reading r
    ∙ read_lines-value_lines pairs (record reading { values = set key digest reading.values }) h

-- The first line.
abbrev pub status_line : Bool → Text
status_line ok = integrity_mark ++ status_text ok

status_line-Lacks : (ok : Bool) → Lacks 0x0a (status_line ok)
status_line-Lacks true = ground arith
status_line-Lacks false = ground arith

read_lines-status :
    (ok : Bool) (lines : List Text) (reading : Reading)
    → read_lines (status_line ok ∷ lines) reading
      ≡ read_lines lines (record reading { integrity_ok = ok })
unfolding read_lines read_line
read_lines-status true lines reading = refl
read_lines-status false lines reading = refl

-- A report that a query tool prints in the form of the protocol is read back as it was meant: the
-- recovery opened, with the integrity check's answer and with each value under its key, a later
-- value of a key in the place of an earlier one; keys and digests hold no space and no line end,
-- and no key begins like the integrity line.
pub query_target-report :
    (show : Option ℕ → Text) (ok : Bool) (pairs : List (Text × Text)) (stderr absent_detail : Text)
    → All IsReportable pairs
    → query_target show true
        (record { exit_code = some 0; stdout = report_text ok pairs; stderr = stderr })
        absent_detail
      ≡ RecoveryResult.opened ok (set_pairs pairs []) (detail_of (trim stderr))
unfolding query_target
query_target-report show ok pairs stderr absent_detail h =
    ap
      (λ reading.
        RecoveryResult.opened reading.integrity_ok reading.values (detail_of (trim stderr)))
      (ap (λ t. read_lines (split 0x0a t) start)
          (sym (append_assoc integrity_mark (status_text ok) (0x0a ∷ value_lines pairs)))
        ∙ ap (λ ls. read_lines ls start)
            (split_at_sep 0x0a (status_line ok) (value_lines pairs) (status_line-Lacks ok))
        ∙ read_lines-status ok (split 0x0a (value_lines pairs)) start
        ∙ read_lines-value_lines pairs (record start { integrity_ok = ok }) h)
  where
    start : Reading
    start = record { integrity_ok = false; values = [] }
