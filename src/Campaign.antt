-- ===== src/Campaign.antt =====
-- core/src/campaign/campaign.ts: one trace through the whole pipeline.
-- Outside the model stand `JSON.parse` and `Number`, and what materializing an image, mounting it
-- and running the target's recovery in it give for a state: `none` where one of them throws. The
-- image `state-${index}.img` is its index, and `images` are the image files in `imageDir`.
pub mod Loop
pub mod Images
pub mod Counts
pub mod Whole
pub mod Machine
pub mod Sweep
pub mod Targets
use crash_fuzz.Prelude.{
  ℕ, zero, suc, ◌+◌, Bool, true, false, not, List, [], ◌∷◌, Option, none, some, ◌>>=◌, ◌==◌, nat_eq,
  length, get_elem?, filter, any, add, if◌then◌else◌, map,
}
use crash_fuzz.Prelude.Int.{ℤ, negsuc, int_eq}
use crash_fuzz.Prelude.Text.{Text, text_eq}
use crash_fuzz.Prelude.Dict.{Dict, get, set, values}
use crash_fuzz.Graph.{FilesystemModel}
use crash_fuzz.Trace.{TraceEvent, Trace}
use crash_fuzz.Enumerate.Comments.{strip_comments}
use crash_fuzz.Enumerate.States.{CrashState, Bounds, enumerate_crash_states}
use crash_fuzz.Enumerate.CrashPoints.{Rate, select_crash_points, SelectionOptions}
use crash_fuzz.Enumerate.Sample.{sample_states, SampleOptions}
use crash_fuzz.Oracle.AckLog.{AckedOperation, parse_ack_log}
use crash_fuzz.Oracle.Verdict.{RecoveryResult, Violation, check_oracle}
use crash_fuzz.Oracle.Dedup.{signature_of}

pub record Finding : Type 0 where
  pub signature : Text
  pub violation : Violation
  pub occurrences : ℕ
  pub state : CrashState
  pub image : ℕ

-- What bounds.jsonc holds; nothing reads the first field and the last two.
pub record LoadedBounds : Type 0 where
  pub crash_points : Text
  pub non_fsync_sample_rate : Rate
  pub max_unpersisted_window : ℕ
  pub max_exhaustive_workload_ops : ℕ
  pub max_states_per_crash_point : ℕ
  pub torn_writes : Bool
  pub torn_write_granularity_bytes : ℕ
  pub max_torn_ops_per_state : ℕ

-- `loadBounds`, on the text of the file
unfoldable pub load_bounds : (Text → Option LoadedBounds) → Text → Option LoadedBounds
unfolding strip_comments
load_bounds json_parse text = json_parse (strip_comments text)

pub record CampaignResult : Type 0 where
  pub crash_points_tested : ℕ
  pub states_tested : ℕ
  pub findings : List Finding

-- What the loop over the states has at hand, and the image files.
pub record Progress : Type 0 where
  pub findings : Dict Text Finding
  pub tested : ℕ
  pub images : List ℕ

-- `trace.events[state.crashPoint]?.index ?? 0`
unfoldable pub crash_stamp_of : Trace → CrashState → ℕ
crash_stamp_of trace state = elim (get_elem? trace.events state.crash_point) [
  | none ↦ 0
  | some event ↦ event.index
]

-- `ackLog.find((entry) => entry.op === violation.op)`
unfoldable pub find_operation : Option ℤ → List AckedOperation → Option AckedOperation
find_operation none log = none
find_operation (some op) [] = none
find_operation (some op) (entry ∷ rest) =
    let later = find_operation (some op) rest in if entry.op == op then some entry else later

-- The operation that stands for a violation with none of its own.
abbrev pub stand_in : ℕ → AckedOperation
stand_in crash_stamp = record {
  op = negsuc 0;
  kind = [];
  key = [];
  digest = [];
  began_at = 0;
  acknowledged_at = some crash_stamp;
  durable = false;
}

abbrev pub or_stand_in : ℕ → Option AckedOperation → AckedOperation
or_stand_in crash_stamp none = stand_in crash_stamp
or_stand_in crash_stamp (some operation) = operation

-- A finding for a signature: a new one, or one more occurrence of the one that is there.
unfoldable pub record_finding : Finding → Dict Text Finding → Dict Text Finding
record_finding finding findings = elim (get finding.signature findings) [
  | none ↦ set finding.signature finding findings
  | some existing ↦
      set finding.signature (record existing { occurrences = suc existing.occurrences }) findings
]

unfoldable pub record_all : List Finding → Dict Text Finding → Dict Text Finding
unfolding record_finding
record_all [] findings = findings
record_all (f ∷ fs) findings = record_all fs (record_finding f findings)

module _ (trace : Trace) (ack_log : List AckedOperation) where
  -- The finding that a violation of a state makes.
  unfoldable pub finding_of : ℕ → CrashState → Violation → Finding
  unfolding find_operation crash_stamp_of
  finding_of index state violation =
      let operation =
        or_stand_in (crash_stamp_of trace state) (find_operation violation.op ack_log) in
      record {
        signature = signature_of violation state trace operation;
        violation = violation;
        occurrences = 1;
        state = state;
        image = index;
      }

  abbrev pub violations_of : CrashState → RecoveryResult → List Violation
  violations_of state recovery =
      check_oracle (record {
        crash_stamp = crash_stamp_of trace state;
        ack_log = ack_log;
        recovery = recovery;
      })

  -- The body of the loop, once recovery has answered.
  unfoldable pub examine : ℕ → CrashState → RecoveryResult → Progress → Progress
  unfolding finding_of record_all
  examine index state recovery progress =
      let findings =
        record_all (map (finding_of index state) (violations_of state recovery))
          progress.findings in
      let written = add index progress.images in
      record {
        findings = findings;
        tested = suc progress.tested;
        images =
            if any (λ finding. finding.image == index) (values findings)
            then written
            else filter (λ i. not (i == index)) written;
      }

  module _ (recover : CrashState → Option RecoveryResult) where
    unfoldable pub run_loop : ℕ → List CrashState → Progress → Option Progress
    unfolding examine
    run_loop index [] progress = some progress
    run_loop index (state ∷ rest) progress = do
      recovery ← recover state
      run_loop (suc index) rest (examine index state recovery progress)

-- The options of the three stages before the loop.
abbrev pub selection_of : LoadedBounds → ℕ → SelectionOptions
selection_of bounds seed = record {
  non_fsync_sample_rate = bounds.non_fsync_sample_rate;
  seed = seed;
  max_exhaustive_workload_ops = some bounds.max_exhaustive_workload_ops;
}

abbrev pub window_bounds : LoadedBounds → Bounds
window_bounds bounds = record {
  torn_writes = bounds.torn_writes;
  max_unpersisted_window = bounds.max_unpersisted_window;
}

abbrev pub sampling_of : LoadedBounds → ℕ → SampleOptions
sampling_of bounds seed = record {
  max_per_crash_point = bounds.max_states_per_crash_point;
  seed = seed;
}

abbrev pub at_start : Progress
at_start = record { findings = []; tested = 0; images = [] }

-- `runCampaign`, after the files are read
module _ (number : Text → Option ℤ) (recover : CrashState → Option RecoveryResult) where
  unfoldable pub run_campaign : Trace → LoadedBounds → FilesystemModel → ℕ → Option CampaignResult
  unfolding run_loop
  run_campaign trace bounds model seed =
      let crash_points = select_crash_points trace (selection_of bounds seed) in
      do
        states ← enumerate_crash_states trace (record {
          model = model;
          bounds = window_bounds bounds;
          crash_points = some crash_points;
        })
        progress ←
            run_loop trace (parse_ack_log number trace) recover 0
              (sample_states states (sampling_of bounds seed)) at_start
        some (record {
          crash_points_tested = length crash_points;
          states_tested = progress.tested;
          findings = values progress.findings;
        })
