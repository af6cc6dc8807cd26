-- ===== src/Examples/Artifacts.antt =====
-- The theorems on a finding's artifact and on the report of a query tool.
use crash_fuzz.Prelude.{
  ℕ, ◌≡◌, refl, true, List, [], ◌∷◌, ◌++◌, Option, none, some, arith, ◌==◌, nat_eq, if◌then◌else◌,
  take, All,
}
use crash_fuzz.Prelude.Int.{pos}
use crash_fuzz.Prelude.Text.{Text, codes, trim}
use crash_fuzz.Trace.{CallName, Trace}
use crash_fuzz.Trace.Reader.{
  RawRecord, Parsed, parse_lines, parse_trace, assemble, events_of, to_event,
}
use crash_fuzz.Oracle.Verdict.{RecoveryResult}
use crash_fuzz.Oracle.Recover.{query_target, detail_of}
use crash_fuzz.Oracle.Recover.Report.{report_text, IsReportable, set_pairs, query_target-report}
use crash_fuzz.Oracle.Reproducer.{escape_for_double_quoted_shell, trace_prefix, replace_string}
use crash_fuzz.Oracle.Reproducer.Shell.{read_quoted, read_quoted-escape}
use crash_fuzz.Oracle.Reproducer.Prefix.{lines_of, trace_prefix-parse_trace}

abbrev show_code : Option ℕ → Text
show_code code = codes "1"

abbrev two_values : List (Text × Text)
two_values = (codes "k1", codes "aa") ∷ (codes "k2", codes "bb") ∷ []

two_values-IsReportable : All IsReportable two_values
two_values-IsReportable = (
  record {
    key_space = (refl, (refl, tt));
    key_line = (refl, (refl, tt));
    digest_space = (refl, (refl, tt));
    digest_line = (refl, (refl, tt));
    no_mark = refl;
  },
  (
    record {
      key_space = (refl, (refl, tt));
      key_line = (refl, (refl, tt));
      digest_space = (refl, (refl, tt));
      digest_line = (refl, (refl, tt));
      no_mark = refl;
    },
    tt,
  ),
)

query_target-report_example :
    query_target show_code true
      (record { exit_code = some 0; stdout = report_text true two_values; stderr = codes "slow " })
      (codes "absent")
    ≡ RecoveryResult.opened true (set_pairs two_values []) (detail_of (trim (codes "slow ")))
query_target-report_example =
    query_target-report show_code true two_values (codes "slow ") (codes "absent")
      two_values-IsReportable

abbrev build : Text
build = codes "cd $repo && cargo build --features \"a\\b\""

read_quoted-escape_example :
    read_quoted (escape_for_double_quoted_shell build ++ 0x22 ∷ codes " -x")
    ≡ some (build, codes " -x")
read_quoted-escape_example = read_quoted-escape build (codes " -x") refl

-- `$&` in a claim puts the placeholder back.
replace_string_dollar :
    replace_string (codes "_C_") (codes "a$&b") [] (codes "x _C_ y") ≡ codes "x a_C_b y"
unfolding replace_string
replace_string_dollar = refl

abbrev pub write_at_stamp : ℕ → RawRecord
write_at_stamp i = RawRecord.event (record {
  i = i;
  j = i;
  call = CallName.write;
  fd = pos 3;
  tid = 1;
  path = codes "/db/main";
  path2 = [];
  off = pos 0;
  len = 8;
  ret = pos 8;
  err = 0;
  dig = [];
})

-- A reader of three kinds of lines.
abbrev pub read_json : Text → Option RawRecord
read_json [] = none
read_json (c ∷ s) =
    if c == 0x48
    then some (RawRecord.header 1 7)
    else (if c == 0x4d
        then some (RawRecord.marker 1 1 s)
        else (if c == 0x31
            then some (write_at_stamp 1)
            else (if c == 0x32 then some (write_at_stamp 2) else none)))

abbrev pub trace_text : Text
trace_text =
    codes "H"
    ++ (0x0a ∷ codes "1" ++ (0x0a ∷ 0x0a ∷ codes "2" ++ (0x0a ∷ codes "Mend" ++ 0x0a ∷ [])))

abbrev records : List RawRecord
records =
    RawRecord.header 1 7
    ∷ write_at_stamp 1
    ∷ write_at_stamp 2
    ∷ RawRecord.marker 1 1 (codes "end")
    ∷ []

abbrev trace_read : Parsed Trace → Trace
trace_read (Parsed.ok t) = t
trace_read (Parsed.err e) = record {
  header = record { version = 0; pid = 0 };
  events = [];
  markers = [];
}

records_read : parse_lines read_json (lines_of trace_text) ≡ some records
unfolding parse_lines
records_read = refl

records_assembled : assemble records ≡ Parsed.ok (trace_read (assemble records))
unfolding assemble
records_assembled = refl

trace_prefix-parse_trace_example :
    (prefix' : Text) × (trace_prefix read_json 0 trace_text ≡ some prefix')
    × (parse_trace read_json prefix'
        ≡ Parsed.ok (record (trace_read (assemble records)) {
          events = take 1 (trace_read (assemble records)).events;
        }))
unfolding events_of to_event
trace_prefix-parse_trace_example =
    trace_prefix-parse_trace read_json 0 trace_text records (trace_read (assemble records))
      records_read records_assembled ((omega arith, tt), (tt, tt))
