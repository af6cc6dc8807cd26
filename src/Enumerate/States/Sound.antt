-- ===== src/Enumerate/States/Sound.antt =====
-- The states that `enumerateCrashStates` of core/src/enumerate/states.ts returns are well formed.
use crash_fuzz.Trace.{Trace}
