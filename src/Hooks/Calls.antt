-- ===== src/Hooks/Calls.antt =====
-- The calls of a request as a tree: what a call's original handler runs comes back to the hooks, and the
-- handler of `ini_set` changes a setting that is PHP_INI_ALL.
use lumbre_ext.Common.{ℕ, Bool}
use lumbre_ext.Span.{Timespec}
use lumbre_ext.Hooks.{Globals, Frame, execute_internal, execute_ex}

-- A new value of a setting that a script can change.
pub data Setting : Type 0 where
  enabled_to : Bool → Setting
  min_duration_to : ℕ → Setting

abbrev pub set : Setting → Globals → Globals
set (enabled_to v) g = record g { enabled = v }
set (min_duration_to v) g = record g { min_duration_ns = v }

mutual
  pub data Call : Type 0 where
    internal : Frame → Timespec → Calls → Timespec → Call
    userland : Frame → Timespec → Calls → Timespec → Call

  pub data Calls : Type 0 where
    done : Calls
    first : Call → Calls → Calls
    alter : Setting → Calls → Calls

unfoldable mutual
  pub run : Call → Globals → Globals
  run (internal frame begin inner end) g = execute_internal frame begin end (run_all inner) g
  run (userland frame begin inner end) g = execute_ex frame begin end (run_all inner) g

  pub run_all : Calls → Globals → Globals
  run_all done g = g
  run_all (first c rest) g = run_all rest (run c g)
  run_all (alter s rest) g = run_all rest (set s g)
