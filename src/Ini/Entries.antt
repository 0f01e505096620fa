-- ===== src/Ini/Entries.antt =====
-- The INI entries of php_lumbre.c with their defaults and handlers.
use lumbre_ext.Common.{
  ℕ, ◌≤◌, ◌≡◌, refl, sym, arith, Bool, List, [], ◌∷◌, some, Status, ok, codes, All,
}
use mathlib.Core.Path.{subst}
use mathlib.Core.List.{Memᴰ}
use lumbre_ext.Hooks.{Globals}
use lumbre_ext.Ini.{on_update_mode}
use lumbre_ext.Ini.Mode.{on_update_mode-le}

-- How the engine's `OnUpdateBool` and `OnUpdateLong` read a value.
pub record Zend : Type 0 where
  pub to_bool : List ℕ → Bool
  pub to_long : List ℕ → ℕ

-- `PHP_INI_SYSTEM` and `PHP_INI_ALL`.
pub data Modifiable : Type 0 where
  ini_system : Modifiable
  ini_all : Modifiable

-- What a handler returns, and the globals that it leaves.
pub record IniEntry : Type 0 where
  pub name : List ℕ
  pub value : List ℕ
  pub modifiable : Modifiable
  pub on_modify : Zend → List ℕ → Globals → Status × Globals

abbrev modify_mode : List ℕ → Globals → Status × Globals
modify_mode v g = let r = on_update_mode g.mode v in (r.0, record g { mode = r.1 })

abbrev pub enabled_entry : IniEntry
enabled_entry = record {
  name = codes "lumbre.enabled";
  value = codes "1";
  modifiable = ini_all;
  on_modify = λ z v g. (ok, record g { enabled = z.to_bool v });
}

abbrev pub buffer_size_entry : IniEntry
buffer_size_entry = record {
  name = codes "lumbre.buffer_size";
  value = codes "4194304";
  modifiable = ini_system;
  on_modify = λ z v g. (ok, record g { buffer_size = z.to_long v });
}

abbrev pub ini_entries : List IniEntry
ini_entries =
    enabled_entry
    ∷ record {
      name = codes "lumbre.mode";
      value = codes "io";
      modifiable = ini_system;
      on_modify = λ z v g. modify_mode v g;
    }
    ∷ buffer_size_entry
    ∷ record {
      name = codes "lumbre.shm_dir";
      value = codes "/dev/shm";
      modifiable = ini_system;
      on_modify = λ z v g. (ok, record g { shm_dir = some v });
    }
    ∷ record {
      name = codes "lumbre.trigger_header";
      value = codes "X-Trace-Debug";
      modifiable = ini_system;
      on_modify = λ z v g. (ok, record g { trigger_header = some v });
    }
    ∷ record {
      name = codes "lumbre.max_query_len";
      value = codes "2048";
      modifiable = ini_system;
      on_modify = λ z v g. (ok, record g { max_query_len = z.to_long v });
    }
    ∷ record {
      name = codes "lumbre.min_duration_ns";
      value = codes "0";
      modifiable = ini_all;
      on_modify = λ z v g. (ok, record g { min_duration_ns = z.to_long v });
    }
    ∷ record {
      name = codes "lumbre.trace_namespaces";
      value = codes "";
      modifiable = ini_system;
      on_modify = λ z v g. (ok, record g { trace_namespaces = some v });
    }
    ∷ []

-- What the handlers leave: the ring, the buffer, the context, the root span, the whitelist, and a mode
-- of 0 or 1.
pub record IsUpdate (g g' : Globals) : Type 0 where
  pub ringbuf : g'.ringbuf ≡ g.ringbuf
  pub ringbuf_initialized : g'.ringbuf_initialized ≡ g.ringbuf_initialized
  pub mp_buf : g'.mp_buf ≡ g.mp_buf
  pub ctx : g'.ctx ≡ g.ctx
  pub root_span : g'.root_span ≡ g.root_span
  pub whitelist : g'.whitelist ≡ g.whitelist
  pub mode : g.mode ≤ 1 → g'.mode ≤ 1

IsSound : Zend → IniEntry → Type 0
IsSound z e = (v : List ℕ) (g : Globals) → IsUpdate g (e.on_modify z v g).1

same_mode :
    (g g' : Globals)
    → g'.ringbuf ≡ g.ringbuf
    → g'.ringbuf_initialized ≡ g.ringbuf_initialized
    → g'.mp_buf ≡ g.mp_buf
    → g'.ctx ≡ g.ctx
    → g'.root_span ≡ g.root_span
    → g'.whitelist ≡ g.whitelist
    → g'.mode ≡ g.mode
    → IsUpdate g g'
same_mode g g' rb i b c r w m = record {
  ringbuf = rb;
  ringbuf_initialized = i;
  mp_buf = b;
  ctx = c;
  root_span = r;
  whitelist = w;
  mode = λ h. omega (arith, m, h);
}

modify_mode-IsUpdate : (v : List ℕ) (g : Globals) → IsUpdate g (modify_mode v g).1
modify_mode-IsUpdate v g = record {
  ringbuf = refl;
  ringbuf_initialized = refl;
  mp_buf = refl;
  ctx = refl;
  root_span = refl;
  whitelist = refl;
  mode = λ h. (on_update_mode-le g.mode v h).0;
}

ini_entries-All : (z : Zend) → All (IsSound z) ini_entries
unfolding IsSound
ini_entries-All z = (
  (λ v g. same_mode g _ refl refl refl refl refl refl refl),
  (
    (λ v g. modify_mode-IsUpdate v g),
    (
      (λ v g. same_mode g _ refl refl refl refl refl refl refl),
      (
        (λ v g. same_mode g _ refl refl refl refl refl refl refl),
        (
          (λ v g. same_mode g _ refl refl refl refl refl refl refl),
          (
            (λ v g. same_mode g _ refl refl refl refl refl refl refl),
            (
              (λ v g. same_mode g _ refl refl refl refl refl refl refl),
              ((λ v g. same_mode g _ refl refl refl refl refl refl refl), tt),
            ),
          ),
        ),
      ),
    ),
  ),
)

pub Memᴰ-All : {A : Type 0} (P : A → Type 0) (xs : List A) {a : A} → All P xs → Memᴰ a xs → P a
Memᴰ-All P [] h m = elim m [ ]
Memᴰ-All P (x ∷ xs) h (Memᴰ.head e) = subst P (sym e) h.0
Memᴰ-All P (x ∷ xs) h (Memᴰ.tail m) = Memᴰ-All P xs h.1 m

-- A handler of an entry leaves the ring, the context and the whitelist, and the mode 0 or 1.
pub on_modify-IsUpdate :
    (z : Zend) (e : IniEntry) (v : List ℕ) (g : Globals)
    → Memᴰ e ini_entries
    → IsUpdate g (e.on_modify z v g).1
unfolding IsSound
on_modify-IsUpdate z e v g at = Memᴰ-All (IsSound z) ini_entries (ini_entries-All z) at v g
