-- ===== src/Worker/Pool.antt =====
-- The threads of a thread-safe build of php_lumbre.c, which take their numbers from one counter.
use lumbre_ext.Common.{ℕ, ◌+◌, ◌^◌, ◌<◌, ◌≡◌, true, List, ◌==◌, if◌then◌else◌}
use lumbre_ext.Span.{Timespec}
use lumbre_ext.Hooks.{Globals, dir_of}
use lumbre_ext.Hooks.Calls.{Call, run}
use lumbre_ext.Request.{Env, rshutdown}
use lumbre_ext.Worker.{rinit_numbered}

-- Each thread's globals, and the counter that they share.
pub record Pool : Type 0 where
  pub globals : ℕ → Globals
  pub counter : ℕ

abbrev pub update : Pool → ℕ → Globals → ℕ → Pool
update p t g counter = record {
  globals = λ u. if u == t then g else p.globals u;
  counter = counter;
}

abbrev pub begun : Pool → ℕ → Env → Pool
begun p t env = let r = rinit_numbered true p.counter env (p.globals t) in update p t r.0 r.2

-- The starts and ends of requests and the calls of all threads, in any interleaving. The threads are
-- of one process and its directory, and the counter is not at its end.
pub data Step (dir : List ℕ) (pid : ℕ) : Pool → Pool → Type 0 where
  begin_request :
      (t : ℕ) (env : Env) (p : Pool)
      → env.pid ≡ pid
      → dir_of (p.globals t) ≡ dir
      → p.counter + 1 < 2 ^ 64
      → Step dir pid p (begun p t env)
  call : (t : ℕ) (c : Call) (p : Pool) → Step dir pid p (update p t (run c (p.globals t)) p.counter)
  end_request :
      (t : ℕ) (now : Timespec) (p : Pool)
      → Step dir pid p (update p t (rshutdown (p.globals t) now) p.counter)

pub data Reach (dir : List ℕ) (pid : ℕ) (p : Pool) : Pool → Type 0 where
  here : Reach dir pid p p
  next : {q r : Pool} → Reach dir pid p q → Step dir pid q r → Reach dir pid p r
