-- ===== src/Lib.antt =====
-- A model of crashfuzz, a checker of application-level crash consistency, and what is proved of it.
--
-- The program takes a trace of the file calls that a target made (core/src/trace), chooses the points
-- at which a crash is tried (core/src/enumerate/crash-points.ts), enumerates the states that a disk
-- may be in there (core/src/enumerate/states.ts, by the models of core/src/graph/models.ts),
-- samples them (core/src/enumerate/sample.ts), replays each into an image, runs the target's recovery
-- in it, and asks the oracle (core/src/oracle) whether an acknowledged write was lost. The campaign
-- (core/src/campaign/campaign.ts) runs these stages and keeps one finding for each root cause.
--
-- Trace: the records of core/src/trace/reader.ts; Trace.Reader is parseTrace, from records to a
--   sorted trace; Trace.Replay is core/src/trace/replay.ts, replaySelection and replayTrace, over an
--   interface NodeFs of the calls of node:fs and node:path.
-- Graph: core/src/graph/models.ts.
-- Enumerate: States is core/src/enumerate/states.ts (pinnedBy, existsOnDisk, strictSectorPrefixes,
--   enumerateCrashStates), with Legal for what is asked of a state and Choices for
--   the choices that are enumerated; CrashPoints is
--   selectCrashPoints; Sample is sampleStates; Hash is unitHash; Comments is stripComments of
--   core/src/enumerate/bounds.ts.
-- Oracle: AckLog is core/src/oracle/acklog.ts (fields, parseAckLog); Verdict is checkOracle of
--   core/src/oracle/oracle.ts, with Contract for the promise it judges by; Dedup is
--   core/src/oracle/dedup.ts (earliestMissing, signatureOf); Recover is core/src/oracle/recover.ts
--   (queryTarget, recoverRedb, recoverSqlite, recoverFileKv); Reproducer is
--   core/src/oracle/reproducer.ts (tracePrefix, escapeForDoubleQuotedShell, writeReproducer), with
--   the files of an artifact as values, its Shell a reader of bash's double quotes without
--   a nested expansion.
-- Campaign: runCampaign of core/src/campaign/campaign.ts, with the image files as explicit state and
--   what recovery answers for a state as a parameter; Machine is the same on a machine of Image;
--   Targets is core/src/campaign/targets.ts; Sweep is sweepPlan and resultsTable of
--   core/src/campaign/sweep.ts and results.ts.
-- Cli: main of core/src/index.ts, with doctor and enumerate, as exit code and printed lines.
-- Image: core/src/image/image.ts (createImage, withMount, materializeState) over an interface Machine
--   of the calls that it makes; Holds says what its commands do to loop devices and mounts
--   where they succeed; umount and losetup --detach may fail.
-- Tools: FtruncateVsOverwrite, StateExplosion, CampaignRun and TddReport are the files of those names
--   in core/tools.
-- Prelude: lists, texts as lists of UTF-16 codes, JavaScript's Map (Dict), stable sort (Sort),
--   32-bit words (Word), and code that changes a state and may throw (Io).
-- Examples: runs of the model, and the theorems at concrete inputs.
--
-- Numbers: stamps, indexes, sizes and counts are natural numbers, return values and offsets are
-- integers. A shift by the length of the window wraps as in JavaScript (mask_limit, bit_set). The
-- sampling rate is a fraction.
-- All loops run over lists or ranges, so no fuel is needed.
--
-- Parameters: JSON.parse (a record for a line, or none where it throws), Number (an integer, or none
-- where the result is not finite; an operation number is taken to be an integer), String of a number,
-- process.platform and what an object inherits (Cli), the file system of
-- the replay, and what materializing, mounting and recovering a state answer.
--
-- Bun.spawnSync, what the query tools print, the kernel's settings and the least squares in doubles
-- are parameters too. What is printed on the console by core/tools is left out.
--
-- Not modelled: the capture shim in C and the targets, which are other programs in other languages;
-- the plots and the virtual machine's set-up.
pub mod Prelude
pub mod Trace
pub mod Graph
pub mod Enumerate
pub mod Oracle
pub mod Campaign
pub mod Cli
pub mod Image
pub mod Tools
mod Examples
