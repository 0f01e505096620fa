-- ===== src/Worker/Entry.antt =====
-- The module entry of php_lumbre.c, and the end of a thread's globals, which the engine leaves to it.
use lumbre_ext.Common.{
  ℕ, ◌<◌, ◌^◌, ◌≡◌, ◌≢◌, refl, sym, Bool, false, List, [], ◌∷◌, ◌++◌, Option, none, some, codes,
  All, Bool-cases, inl, inr,
}
use mathlib.Core.List.{Memᴰ}
use lumbre_ext.Ring.{RingBuf}
use lumbre_ext.Ring.Lifecycle.{
  SysCall, opened, truncated, mapped, unmapped, closed, unlinked, destroy,
}
use lumbre_ext.Span.{Timespec}
use lumbre_ext.Hooks.{Globals}
use lumbre_ext.Ini.Entries.{IniEntry, Memᴰ-All}
use lumbre_ext.Request.{Env, rinit, rshutdown, mshutdown}
use lumbre_ext.Worker.{Handlers, Process, ginit, minit, shut_down}
use lumbre_ext.Worker.Info.{Printed, minfo, php_lumbre_version}
use lumbre_ext.Worker.Numbered.{HasRing}
use lumbre_ext.Worker.Pool.{Pool, Reach}
use lumbre_ext.Worker.Threads.{Reach-files}

-- What the engine takes from the entry, over its handlers; `none` is NULL.
pub record ModuleEntry (H : Type 0) : Type 0 where
  pub name : List ℕ
  pub functions : Option (List ℕ)
  pub module_startup :
      Option ((List IniEntry → Globals → Globals) → Handlers H → Process H → Process H)
  pub module_shutdown : Option (Process H → Bool → Process H × List SysCall)
  pub request_startup : Option (Env → Globals → Globals × List SysCall)
  pub request_shutdown : Option (Globals → Timespec → Globals)
  pub info : Option (Globals → List Printed)
  pub version : List ℕ
  pub globals_ctor : Option (Option Globals)
  pub globals_dtor : Option (Globals → Globals × List SysCall)
  pub post_deactivate : Option (Globals → Globals)

abbrev pub lumbre_module_entry : {H : Type 0} → ModuleEntry H
lumbre_module_entry = record {
  name = codes "lumbre";
  functions = none;
  module_startup = some minit;
  module_shutdown = some shut_down;
  request_startup = some rinit;
  request_shutdown = some rshutdown;
  info = some minfo;
  version = php_lumbre_version;
  globals_ctor = some ginit;
  globals_dtor = none;
  post_deactivate = none;
}

-- The engine frees a thread's globals behind the entry's destructor, if there is one.
abbrev pub freed : Option (Globals → Globals × List SysCall) → Globals → List SysCall
freed none g = []
freed (some dtor) g = (dtor g).1

-- The end of the process: the module's shutdown in thread `t`, and the other threads' globals freed.
abbrev pub last_calls : Pool → ℕ → Bool → List ℕ → List SysCall
last_calls p t is_cli [] = (mshutdown (p.globals t) is_cli).1
last_calls p t is_cli (u ∷ others) =
    freed (lumbre_module_entry {H = Unit}).globals_dtor (p.globals u)
    ++ last_calls p t is_cli others

last_calls_lem :
    (p : Pool) (t : ℕ) (is_cli : Bool) (others : List ℕ)
    → last_calls p t is_cli others ≡ (mshutdown (p.globals t) is_cli).1
last_calls_lem p t is_cli [] = refl
last_calls_lem p t is_cli (u ∷ others) = last_calls_lem p t is_cli others

-- A call unlinks no other file than `path`.
abbrev Unlinks : List ℕ → SysCall → Type 0
Unlinks path (opened name fd) = Unit
Unlinks path (truncated fd size) = Unit
Unlinks path (mapped fd size) = Unit
Unlinks path (unmapped size) = Unit
Unlinks path (closed fd) = Unit
Unlinks path (unlinked name) = name ≡ path

destroy-Unlinks : (rb : RingBuf) (skip : Bool) → All (Unlinks rb.path) (destroy rb skip).1
unfolding destroy
destroy-Unlinks rb skip = elim (Bool-cases rb.attached) [
  | inl on ↦ elim (Bool-cases skip) [
    | inl e ↦ rw (on, e) (tt, (tt, tt))
    | inr e ↦ rw (on, e) (tt, (tt, (refl, tt)))
  ]
  | inr off ↦ rw off tt
]

no_call : {c : SysCall} → ¬ Memᴰ c []
no_call m = elim m [ ]

mshutdown-unlinked :
    (g : Globals) (is_cli : Bool) (path : List ℕ)
    → Memᴰ (unlinked path) (mshutdown g is_cli).1
    → HasRing g × (path ≡ g.ringbuf.path)
unfolding mshutdown
mshutdown-unlinked g is_cli path m = elim (Bool-cases g.ringbuf_initialized) [
  | inl there ↦ (
    there,
    Memᴰ-All (Unlinks g.ringbuf.path) (destroy g.ringbuf is_cli).1
        (destroy-Unlinks g.ringbuf is_cli) (rw there at m),
  )
  | inr none_there ↦ absurd (no_call (rw none_there at m))
]

-- Start with threads of one process that have no ring, and a counter below 2^64. After any interleaving of
-- starts and ends of requests and of calls of the threads, with one directory for the rings and a
-- counter that does not reach its end: at the end of the process, when the module's shutdown runs in
-- one thread and the engine frees the globals of others, which the module's entry gives no destructor
-- for, no call unlinks the ring's file of another thread.
pub Reach-leaves :
    {dir : List ℕ} {pid : ℕ} {p q : Pool}
    → ((t : ℕ) → (p.globals t).ringbuf_initialized ≡ false)
    → p.counter < 2 ^ 64
    → Reach dir pid p q
    → (t u : ℕ) (is_cli : Bool) (others : List ℕ) → t ≢ u
    → HasRing (q.globals u)
    → ¬ Memᴰ (unlinked (q.globals u).ringbuf.path) (last_calls q t is_cli others)
Reach-leaves {q = q} fresh low r t u is_cli others other on m =
    let (there, same) =
      mshutdown-unlinked (q.globals t) is_cli (q.globals u).ringbuf.path
        (rw (last_calls_lem q t is_cli others) at m) in
    Reach-files fresh low r t u other there on (sym same)
