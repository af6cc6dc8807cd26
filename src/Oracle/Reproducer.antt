-- ===== src/Oracle/Reproducer.antt =====
-- core/src/oracle/reproducer.ts: the artifact of a finding. The files that it writes are its result,
-- each under its name in `outDir`; `none` is a trace line that `JSON.parse` does not read. Outside
-- the model stand `JSON.parse` and `JSON.stringify`.
pub mod Templates
pub mod Shell
pub mod Replace
pub mod Kept
pub mod Prefix
use crash_fuzz.Prelude.{
  ℕ, suc, Bool, true, false, not, ◌&&◌, ◌||◌, List, [], ◌∷◌, ◌++◌, Option, none, some, ◌>>=◌, ltb,
  length, drop, filter, includes, nat_eq, if◌then◌else◌, nat_beq,
}
use crash_fuzz.Prelude.Text.{Text, codes, split, join, is_blank, starts_with}
use crash_fuzz.Trace.Reader.{RawRecord}
use crash_fuzz.Enumerate.States.{CrashState}
use crash_fuzz.Campaign.Sweep.{Filesystem}
use crash_fuzz.Oracle.Verdict.{Violation, ViolationClass}
use crash_fuzz.Oracle.Dedup.{class_text}
use crash_fuzz.Oracle.Reproducer.Templates.{run_script, readme}

pub record PackagedFinding : Type 0 where
  pub signature : Text
  pub occurrences : ℕ
  pub state : CrashState
  pub image_path : Text
  pub violation : Violation

pub record ReproducerOptions : Type 0 where
  pub out_dir : Text
  pub db_name : Text
  pub filesystem : Filesystem
  pub query_command : Text
  pub build_command : Option Text

abbrev pub is_event : RawRecord → Bool
is_event (RawRecord.event r) = true
is_event _ = false

module _ (json_parse : Text → Option RawRecord) (crash_point : ℕ) where
  -- The loop of `tracePrefix`.
  unfoldable pub prefix_loop : List Text → ℕ → Option (List Text)
  prefix_loop [] events = some []
  prefix_loop (line ∷ lines) events = do
    record' ← json_parse line
    elim (is_event record') [
      | true ↦ elim (ltb crash_point events) [
        | true ↦ prefix_loop lines events
        | false ↦ do kept ← prefix_loop lines (suc events); some (line ∷ kept)
      ]
      | false ↦ do kept ← prefix_loop lines events; some (line ∷ kept)
    ]

  -- `tracePrefix`, on the text of the trace file
  unfoldable pub trace_prefix : Text → Option Text
  unfolding prefix_loop
  trace_prefix text = do
    kept ← prefix_loop (filter (λ line. not (is_blank line)) (split 0x0a text)) 0
    some (join (0x0a ∷ []) kept ++ 0x0a ∷ [])

-- `[\\"`]`
abbrev pub needs_escape : ℕ → Bool
needs_escape c = includes c (0x5c ∷ 0x22 ∷ 0x60 ∷ [])

-- `escapeForDoubleQuotedShell`
unfoldable pub escape_for_double_quoted_shell : Text → Text
escape_for_double_quoted_shell [] = []
escape_for_double_quoted_shell (c ∷ s) =
    let rest = escape_for_double_quoted_shell s in
    if needs_escape c then 0x5c ∷ c ∷ rest else c ∷ rest

-- `text.replace(pattern, () => value)`: the first occurrence
unfoldable pub replace_first : Text → Text → Text → Text
replace_first pattern' value [] = []
replace_first pattern' value (c ∷ s) = elim (starts_with pattern' (c ∷ s)) [
  | true ↦ value ++ drop (length pattern') (c ∷ s)
  | false ↦ c ∷ replace_first pattern' value s
]

-- What two characters of a replacement string ask for: `$$`, `$&`, `` $` `` or `$'`, or neither.
pub data Dollar : Type 0 where
  dollar matched before behind plain : Dollar

unfoldable pub dollar_of : ℕ → ℕ → Dollar
dollar_of c d =
    if nat_beq c 0x24
    then (if nat_beq d 0x24
        then Dollar.dollar
        else (if nat_beq d 0x26
            then Dollar.matched
            else (if nat_beq d 0x60
                then Dollar.before
                else (if nat_beq d 0x27 then Dollar.behind else Dollar.plain))))
    else Dollar.plain

-- What a replacement string stands for, where the pattern has no groups.
unfoldable pub expand : Text → Text → Text → Text → Text
unfolding dollar_of
expand found front rest [] = []
expand found front rest (c ∷ []) = c ∷ []
expand found front rest (c ∷ d ∷ s) = elim (dollar_of c d) [
  | Dollar.dollar ↦ 0x24 ∷ expand found front rest s
  | Dollar.matched ↦ found ++ expand found front rest s
  | Dollar.before ↦ front ++ expand found front rest s
  | Dollar.behind ↦ rest ++ expand found front rest s
  | Dollar.plain ↦ c ∷ expand found front rest (d ∷ s)
]

-- `text.replace(pattern, value)`; `front` is what stands before the place reached
unfoldable pub replace_string : Text → Text → Text → Text → Text
unfolding expand
replace_string pattern' value front [] = []
replace_string pattern' value front (c ∷ s) = elim (starts_with pattern' (c ∷ s)) [
  | true ↦ let rest = drop (length pattern') (c ∷ s) in expand pattern' front rest value ++ rest
  | false ↦ c ∷ replace_string pattern' value (front ++ c ∷ []) s
]

abbrev pub or_empty : Option Text → Text
or_empty none = []
or_empty (some t) = t

abbrev pub filesystem_text : Filesystem → Text
filesystem_text Filesystem.ext4 = codes "ext4"
filesystem_text Filesystem.xfs_fs = codes "xfs"
filesystem_text Filesystem.btrfs_fs = codes "btrfs"

-- The text of run.sh.
unfoldable pub run_sh : ReproducerOptions → Text
unfolding replace_first escape_for_double_quoted_shell run_script
run_sh options = replace_first (codes "__DB_NAME__") options.db_name (
    replace_first (codes "__BUILD_COMMAND__")
      (escape_for_double_quoted_shell (or_empty options.build_command))
      (replace_first (codes "__QUERY_COMMAND__") options.query_command run_script))

unfoldable pub claim_of : Violation → Text
claim_of violation = elim violation.violation_class [
  | ViolationClass.lost_acked ↦
      codes "Key `"
      ++ (violation.key
          ++ (codes "` should read back with digest `"
              ++ (violation.expected
                  ++ (codes "` and instead reads `" ++ (violation.actual ++ codes "`.")))))
  | other ↦ class_text other ++ (codes ": " ++ violation.actual)
]

-- The text of README.md.
unfoldable pub readme_md : Filesystem → Text → Text
unfolding replace_string readme
readme_md filesystem claim =
    replace_string (codes "__CLAIM__") claim []
      (replace_string (codes "__FILESYSTEM__") (filesystem_text filesystem) [] readme)

-- What finding.json says.
pub record FindingJson : Type 0 where
  pub signature : Text
  pub occurrences : ℕ
  pub filesystem : Filesystem
  pub database : Text
  pub violation_class : ViolationClass
  pub key : Text
  pub expected : Text
  pub actual : Text
  pub crash_stamp : ℕ
  pub state : CrashState

abbrev pub finding_json : PackagedFinding → ReproducerOptions → FindingJson
finding_json finding options = record {
  signature = finding.signature;
  occurrences = finding.occurrences;
  filesystem = options.filesystem;
  database = options.db_name;
  violation_class = finding.violation.violation_class;
  key = finding.violation.key;
  expected = finding.violation.expected;
  actual = finding.violation.actual;
  crash_stamp = finding.violation.crash_stamp;
  state = finding.state;
}

-- What a file of the artifact holds: a copy of another file, or a text.
pub data Content : Type 0 where
  copy_of text : Text → Content

module _ (json_parse : Text → Option RawRecord) (stringify : FindingJson → Text) where
  -- `writeReproducer`; the last argument is the text of the trace file
  unfoldable pub write_reproducer :
      PackagedFinding → ReproducerOptions → Text → Option (Text × List (Text × Content))
  unfolding trace_prefix run_sh claim_of readme_md
  write_reproducer finding options trace_text = do
    prefix' ← trace_prefix json_parse finding.state.crash_point trace_text
    some (
      options.out_dir,
      (codes "state.img", Content.copy_of finding.image_path)
          ∷ (codes "trace-prefix.jsonl", Content.text prefix')
          ∷ (
            codes "finding.json",
            Content.text (stringify (finding_json finding options) ++ 0x0a ∷ []),
          )
          ∷ (codes "run.sh", Content.text (run_sh options))
          ∷ (
            codes "README.md",
            Content.text (readme_md options.filesystem (claim_of finding.violation)),
          )
          ∷ [],
    )
