-- ===== src/Pipeline.antt =====
-- A worker of php_lumbre.c and the daemon behind its ring: requests, calls, settings and reads in any
-- order, with what the calls are to report and what the daemon has read.
pub mod Chosen
pub mod Stage
pub mod Opening
pub mod Flow
pub mod Reports
pub mod Delivery
pub mod Drained
pub mod Accounts
mod Tests
use lumbre_ext.Common.{
  ℕ, ◌+◌, ◌%◌, ◌^◌, ◌≤◌, ◌<◌, ◌≡◌, true, Bool, ◌&&◌, List, [], ◌∷◌, ◌++◌, u32, if◌then◌else◌,
}
use mathlib.Core.List.{Memᴰ}
use lumbre_ext.Ring.Reader.{read_msg_at, advance}
use lumbre_ext.Span.{Span, Timespec}
use lumbre_ext.Span.Valid.{finished_span}
use lumbre_ext.Span.Queue.{HasHeadroom}
use lumbre_ext.Hooks.{Globals}
use lumbre_ext.Hooks.Calls.{Call, run}
use lumbre_ext.Hooks.Tree.{settings_of, visit, size, AreFrames}
use lumbre_ext.Ini.Entries.{Zend, IniEntry, ini_entries}
use lumbre_ext.Request.{Env, rinit, rshutdown}
use lumbre_ext.Request.Started.{IsRequest}

-- The worker's globals with its ring, the spans that were to be reported, and the messages that the
-- daemon has read.
pub record System : Type 0 where
  pub globals : Globals
  pub reported : List Span
  pub received : List (List ℕ)

abbrev pub is_tracing : Globals → Bool
is_tracing g = g.enabled && g.ctx.active

-- What a call with the calls in it is to report, and what the end of a request is to.
abbrev pub call_reports : Call → Globals → List Span
call_reports c g =
    if is_tracing g
    then (visit (settings_of g) c g.ctx.current_parent_id g.ctx.span_counter).0
    else []

abbrev pub end_reports : Globals → Timespec → List Span
end_reports g now =
    if g.ctx.active then finished_span g.root_span (g.max_query_len % u32) now ∷ [] else []

abbrev pub begun : Env → System → System
begun env s = record s { globals = (rinit env s.globals).0 }

abbrev pub called : Call → System → System
called c s = record s {
  globals = run c s.globals;
  reported = s.reported ++ call_reports c s.globals;
}

abbrev pub ended : Timespec → System → System
ended now s = record s {
  globals = rshutdown s.globals now;
  reported = s.reported ++ end_reports s.globals now;
}

abbrev pub modified : Zend → IniEntry → List ℕ → System → System
modified z e v s = record s { globals = (e.on_modify z v s.globals).1 }

abbrev pub consumed : System → System
consumed s =
    let rb = s.globals.ringbuf in
    record s {
      globals = record (s.globals) { ringbuf = advance rb };
      received = s.received ++ read_msg_at rb (rb.header.read_pos % rb.capacity) ∷ [];
    }

-- Strings are short, the calls change no setting, ids and the worker's number fit in 64 bits, a write is made with three capacities between the consumer's
-- position and the end of 64 bits, and the daemon reads a ring that is there and not empty.
pub data Step (z : Zend) : System → System → Type 0 where
  begin_request :
      (env : Env) (s : System)
      → IsRequest env
      → 3 ≤ s.globals.buffer_size % 2 ^ 32
      → s.globals.buffer_size % 2 ^ 32 ≤ 2 ^ 31
      → env.worker_id < 2 ^ 64
      → Step z s (begun env s)
  call :
      (c : Call) (s : System)
      → AreFrames c
      → s.globals.ctx.span_counter + size c < 2 ^ 64
      → HasHeadroom s.globals.ringbuf
      → Step z s (called c s)
  end_request :
      (now : Timespec) (s : System) → HasHeadroom s.globals.ringbuf → Step z s (ended now s)
  modify :
      (e : IniEntry) (v : List ℕ) (s : System) → Memᴰ e ini_entries → Step z s (modified z e v s)
  read :
      (s : System)
      → s.globals.ringbuf_initialized ≡ true
      → s.globals.ringbuf.header.read_pos < s.globals.ringbuf.header.write_pos
      → Step z s (consumed s)

pub data Reach (z : Zend) (s : System) : System → Type 0 where
  here : Reach z s s
  next : {t u : System} → Reach z s t → Step z t u → Reach z s u
