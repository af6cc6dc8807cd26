-- ===== src/Examples/Traces.antt =====
-- Events and traces that the examples share.
use crash_fuzz.Prelude.{ℕ, List, [], ◌∷◌}
use crash_fuzz.Prelude.Int.{ℤ, pos, negsuc}
use crash_fuzz.Prelude.Text.{Text, codes}
use crash_fuzz.Trace.{CallName, TraceEvent, Trace}

abbrev pub event : ℕ → CallName → Text → Text → ℕ → ℤ → TraceEvent
event i call path path2 len ret = record {
  index = i;
  completion_index = i;
  call = call;
  fd = pos 3;
  thread_id = 1;
  path = path;
  path2 = path2;
  offset = pos 0;
  length = len;
  return_value = ret;
  errno = 0;
  digest = [];
}

abbrev pub main_db : Text
main_db = codes "/db/main"

abbrev pub side_db : Text
side_db = codes "/db/side"

abbrev pub trace_of : List TraceEvent → Trace
trace_of es = record { header = record { version = 1; pid = 7 }; events = es; markers = [] }

-- Two writes of one file around its fsync, a write of another file, and a failed write.
abbrev pub short_events : List TraceEvent
short_events =
    event 0 CallName.write main_db [] 1024 (pos 1024)
    ∷ event 1 CallName.fsync main_db [] 0 (pos 0)
    ∷ event 2 CallName.pwrite main_db [] 1024 (pos 1024)
    ∷ event 3 CallName.write side_db [] 100 (pos 100)
    ∷ event 4 CallName.write side_db [] 100 (negsuc 0)
    ∷ []
