-- ===== src/Cli.antt =====
-- core/src/index.ts: the command line. Printing is explicit: what goes to standard output and to
-- standard error, line by line, with the exit code. `none` is an exception that is not caught.
-- Outside the model stand `process.platform`, `String` of a number, the files, `JSON.parse`, and what
-- an object inherits under a name, printed: `command in COMMANDS` finds that too.
pub mod Laws
use crash_fuzz.Prelude.{
  ℕ, ◌-◌, Bool, true, false, ◌||◌, List, [], ◌∷◌, ◌++◌, Option, none, some, ◌==◌, ◌>>=◌, nat_beq,
  length, includes, if◌then◌else◌, flat_map, filter, not, suc, zero,
}
use crash_fuzz.Prelude.Text.{Text, codes, text_eq}
use crash_fuzz.Graph.{FilesystemModel, models}
use crash_fuzz.Trace.{Trace}
use crash_fuzz.Trace.Reader.{RawRecord, Parsed, parse_trace}
use crash_fuzz.Enumerate.States.{enumerate_crash_states}
use crash_fuzz.Enumerate.CrashPoints.{select_crash_points}
use crash_fuzz.Enumerate.Sample.{sample_states}
use crash_fuzz.Campaign.{LoadedBounds, selection_of, window_bounds, sampling_of}

pub record Output : Type 0 where
  pub exit : ℕ
  pub out : List Text
  pub err : List Text

-- COMMANDS, with their descriptions
abbrev pub commands : List (Text × Text)
commands =
    (codes "trace", codes "Capture a syscall trace from a target workload (Phase 1)")
    ∷ (codes "enumerate", codes "Enumerate legal crash states from a trace (Phase 2)")
    ∷ (codes "replay", codes "Replay crash states through recovery and check the oracle (Phase 3)")
    ∷ (codes "campaign", codes "Sweep filesystems and workload shapes (Phase 4)")
    ∷ (codes "doctor", codes "Report whether the current environment can host a run")
    ∷ []

abbrev pub spaces : ℕ → Text
spaces zero = []
spaces (suc n) = 0x20 ∷ spaces n

abbrev pub pad_end : ℕ → Text → Text
pad_end n t = t ++ spaces (n - length t)

abbrev pub pad_start : ℕ → Text → Text
pad_start n t = spaces (n - length t) ++ t

abbrev pub command_lines : List (Text × Text) → List Text
command_lines [] = []
command_lines ((name, description) ∷ rest) =
    (codes "  " ++ (pad_end 11 name ++ description)) ∷ command_lines rest

-- `usage`
unfoldable pub usage : List Text
usage =
    codes "crashfuzz - application-level crash-consistency checker\n"
    ∷ codes "Usage: bun run cf <command>\n"
    ∷ (command_lines commands
        ++ (codes "\nSee docs/EXECUTION-PLAN.md for the current phase status." ∷ []))

-- `COMMANDS[command]`, printed: the names that an object inherits are there too.
abbrev pub description_of : (Text → Option Text) → Text → List (Text × Text) → Option Text
description_of inherited name [] = inherited name
description_of inherited name ((n, d) ∷ rest) =
    let later = description_of inherited name rest in if n == name then some d else later

-- `doctor`, with the one check of `runChecks`
unfoldable pub doctor : Text → Output
doctor platform = elim (platform == codes "linux") [
  | true ↦ record {
    exit = 0;
    out = (pad_end 5 (codes "ok") ++ codes "platform is linux") ∷ codes "\nEnvironment OK." ∷ [];
    err = [];
  }
  | false ↦ record {
    exit = 1;
    out =
        (pad_end 5 (codes "FAIL")
          ++ (codes "platform is linux"
              ++ (codes "  (found " ++ (platform ++ codes "; start the VM with 'bun run vm:sh')"))))
        ∷ codes "\n1 check(s) failed."
        ∷ [];
    err = [];
  }
]

module _ (show : ℕ → Text) where
  abbrev pub model_line : FilesystemModel → ℕ → ℕ → ℕ → Text
  model_line model points states sampled =
      pad_end 17 model.name
      ++ (pad_start 12 (show points) ++ (pad_start 9 (show states) ++ pad_start 15 (show sampled)))

  -- The loop over MODELS.
  unfoldable pub model_lines :
      Trace → LoadedBounds → List ℕ → List FilesystemModel → Option (List Text)
  model_lines trace bounds points [] = some []
  model_lines trace bounds points (model ∷ rest) = do
    states ←
        enumerate_crash_states trace
          (record { model = model; bounds = window_bounds bounds; crash_points = some points })
    more ← model_lines trace bounds points rest
    some (
        model_line model (length points) (length states)
          (length (sample_states states (sampling_of bounds 1)))
        ∷ more)

  -- `enumerate`, on a trace that was read
  unfoldable pub report : Trace → LoadedBounds → Option Output
  unfolding model_lines
  report trace bounds =
      let points = select_crash_points trace (selection_of bounds 1) in
      do
        lines ← model_lines trace bounds points models
        some (record {
          exit = 0;
          out =
              (show (length trace.events)
                ++ (codes " events, "
                    ++ (show (length points) ++ codes " crash points selected\n")))
              ∷ codes "model            crash points   states   materialized"
              ∷ lines;
          err = [];
        })

  module _ (json_parse : Text → Option RawRecord) (read : Text → Option Text)
      (bounds : Option LoadedBounds) where
    abbrev pub report_parsed : Parsed Trace → LoadedBounds → Option Output
    report_parsed (Parsed.err e) b = none
    report_parsed (Parsed.ok trace) b = report trace b

    -- `enumerate`
    unfoldable pub enumerate : Option Text → Option Output
    unfolding report
    enumerate none = some (record {
      exit = 2;
      out = [];
      err = codes "usage: bun run cf enumerate <trace.jsonl>" ∷ [];
    })
    enumerate (some path) = do
      b ← bounds
      text ← read path
      report_parsed (parse_trace json_parse text) b

    -- `main` on a command that COMMANDS has, with its description
    unfoldable pub run_command : Text → Text → Text → Option Text → Option Output
    unfolding enumerate doctor
    run_command platform command description argument =
        if command == codes "doctor"
        then some (doctor platform)
        else (if command == codes "enumerate"
            then enumerate argument
            else some (record {
              exit = 3;
              out = [];
              err =
                  (codes "Not implemented: "
                    ++ (command ++ (codes " (" ++ (description ++ codes ")"))))
                  ∷ [];
            }))

    unfoldable pub on_command : Text → Text → Option Text → Option Text → Option Output
    unfolding run_command usage
    on_command platform command none argument = some (record {
      exit = 2;
      out = usage;
      err = (codes "Unknown command: " ++ (command ++ codes "\n")) ∷ [];
    })
    on_command platform command (some description) argument =
        run_command platform command description argument

    -- `main`, on `argv[2]` and `argv[3]`
    unfoldable pub main : (Text → Option Text) → Text → Option Text → Option Text → Option Output
    unfolding on_command usage
    main inherited platform none argument = some (record { exit = 0; out = usage; err = [] })
    main inherited platform (some []) argument = some (record { exit = 0; out = usage; err = [] })
    main inherited platform (some (c ∷ cs)) argument =
        on_command platform (c ∷ cs) (description_of inherited (c ∷ cs) commands) argument
