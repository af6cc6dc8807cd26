-- ===== src/Oracle/Reproducer/Templates.antt =====
-- The two templates of core/src/oracle/reproducer.ts, line by line.
use Prim.Native.String.{String}
use crash_fuzz.Prelude.{List, [], ◌∷◌, ◌++◌}
use crash_fuzz.Prelude.Text.{Text, codes}

-- Lines, each with its line end.
unfoldable pub text_lines : List String → Text
text_lines [] = []
text_lines (l ∷ ls) = codes l ++ 0x0a ∷ text_lines ls

-- RUN_SCRIPT
unfoldable pub run_script : Text
unfolding text_lines
run_script = text_lines (
    "#!/usr/bin/env bash" ∷ "# Replays one crash image through the target's own recovery." ∷ "#"
    ∷ "# Needs Linux, root for the loop device, and the environment this project's"
    ∷ "# Requirements section documents: a Rust toolchain and /var/lib/crashfuzz"
    ∷ "# writable (vm/lima.yaml provisions both). Builds the query tool itself if"
    ∷ "# it is not already there:" ∷ "#" ∷ "#   CRASHFUZZ_REPO=/path/to/crashfuzz bash run.sh" ∷ "#"
    ∷ "# Nothing in this script enumerates or materializes anything. It mounts the"
    ∷ "# image that shipped with the finding and asks the target what it can read."
    ∷ "set -euo pipefail" ∷ "" ∷ "here=\"$(cd \"$(dirname \"${BASH_SOURCE[0]}\")\" && pwd)\""
    ∷ "repo=\"${CRASHFUZZ_REPO:-$here/../../..}\"" ∷ ""
    ∷ "# The query tool for the target this finding came from. Substituted when the"
    ∷ "# artifact was written, because asking a different target reports a confident"
    ∷ "# and false observation rather than failing visibly." ∷ "query=(__QUERY_COMMAND__)"
    ∷ "build=\"__BUILD_COMMAND__\"" ∷ ""
    ∷ "# A fresh clone has no build of the query tool at the path above. Build it"
    ∷ "# rather than fail: the \"reproduces on a machine you have not touched\" gate"
    ∷ "# means this artifact, not an already-built binary, is what has to be enough."
    ∷ "if [[ -n \"$build\" ]] && [[ ! -x \"${query[0]}\" ]]; then"
    ∷ "  echo \"query tool not found at ${query[0]}, building it: $build\" >&2"
    ∷ "  eval \"$build\"" ∷ "fi" ∷ "" ∷ "mnt=\"$(mktemp -d)\""
    ∷ "loop=\"$(sudo losetup --find --show \"$here/state.img\")\"" ∷ "cleanup() {"
    ∷ "  sudo umount \"$mnt\" 2>/dev/null || true"
    ∷ "  sudo losetup --detach \"$loop\" 2>/dev/null || true"
    ∷ "  rmdir \"$mnt\" 2>/dev/null || true" ∷ "}" ∷ "trap cleanup EXIT" ∷ ""
    ∷ "sudo mount \"$loop\" \"$mnt\"" ∷ "sudo chmod 0777 \"$mnt\"" ∷ ""
    ∷ "echo \"--- expected ---\""
    ∷ "sed -n 's/^  //p' \"$here/finding.json\" | grep -E '\"(key|expected|actual|violationClass)\"'"
    ∷ "echo \"--- observed now ---\"" ∷ "\"${query[@]}\" \"$mnt/__DB_NAME__\"" ∷ [])

-- README
unfoldable pub readme : Text
unfolding text_lines
readme = text_lines (
    "# Crash-consistency finding" ∷ ""
    ∷ "Generated by crashfuzz. Everything needed to see the behavior is in this"
    ∷ "directory; nothing here re-runs the enumeration." ∷ "" ∷ "| File | What it is |"
    ∷ "|---|---|"
    ∷ "| `state.img` | The crash image, a real __FILESYSTEM__ filesystem. Mount it and look. |"
    ∷ "| `trace-prefix.jsonl` | The target's own syscalls up to the crash point, and nothing after. |"
    ∷ "| `finding.json` | The violation class, the key, what was expected and what came back. |"
    ∷ "| `run.sh` | Mounts the image and asks the target what it can read. |" ∷ "" ∷ "## Running it"
    ∷ "" ∷ "```bash" ∷ "CRASHFUZZ_REPO=/path/to/crashfuzz bash run.sh" ∷ "```" ∷ ""
    ∷ "Requires Linux, a loop device, sudo for the mount, and the environment this"
    ∷ "project's Requirements section documents (a Rust toolchain, /var/lib/crashfuzz"
    ∷ "writable — `vm/lima.yaml` provisions both). If the query tool this finding"
    ∷ "was built against is not already there, the script builds it first." ∷ ""
    ∷ "## What the finding claims" ∷ "" ∷ "__CLAIM__" ∷ ""
    ∷ "The workload acknowledged this operation as durable before the crash point, at"
    ∷ "the settings recorded in `finding.json`. The image is one of the states the"
    ∷ "persistence model in `docs/model.md` says the filesystem could have been left"
    ∷ "in by a crash at that point." ∷ [])
