-- ===== src/Hooks/Kept.antt =====
-- What a finish and a payload of php_lumbre.c leave as it was.
use lumbre_ext.Common.{
  Pointer, ℕ, ◌%◌, u32, ◌≡◌, refl, ◌||◌, none, some, Bool-cases, inl, inr, ◌==◌, Status, ok, error,
}
use lumbre_ext.Ring.{RingBuf}
use lumbre_ext.Ring.Handle.{handle_of, handle_of-write}
use lumbre_ext.Memory.{load}
use lumbre_ext.Msgpack.{Buf, reset}
use lumbre_ext.Span.{
  Span, Context, Timespec, span_db, span_redis, span_memcached, span_cache, span_file_io,
}
use lumbre_ext.Span.Setters.{set_db, set_cache, set_file_io}
use lumbre_ext.Span.Encode.{encode}
use lumbre_ext.Span.Finish.{finish, deliver, is_filtered, restore_parent}
use lumbre_ext.Span.Valid.{timed_span, finished_span}
use lumbre_ext.Hooks.{extract_first_str_arg, Frame, with_query, with_path, with_payload}

pub deliver-ctx :
    (span : Span) (rb : RingBuf) (ctx : Context) (r : Status × Buf)
    → (deliver span rb ctx r).ctx ≡ ctx
unfolding deliver
deliver-ctx span rb ctx (error, b) = refl
deliver-ctx span rb ctx (ok, b) = refl

-- Whatever a finish returns, the context is as before, with the span's parent as the current one.
pub finish-ctx :
    (started : Span) (rb : RingBuf) (b : Buf) (ctx : Context) (min max : ℕ) (now : Timespec)
    → (finish started rb b ctx min max now).ctx
      ≡ record ctx { current_parent_id = started.parent_id }
unfolding finish restore_parent
finish-ctx started rb b ctx min max now =
    elim (Bool-cases (is_filtered (timed_span started now) min)) [
      | inl e ↦ rw e refl
      | inr e ↦ rw e (
          deliver-ctx (finished_span started max now) rb _
            (encode (finished_span started max now) (reset b)))
    ]

pub deliver-handle :
    (span : Span) (rb : RingBuf) (ctx : Context) (r : Status × Buf)
    → handle_of (deliver span rb ctx r).rb ≡ handle_of rb
unfolding deliver
deliver-handle span rb ctx (error, b) = refl
deliver-handle span rb ctx (ok, b) = handle_of-write rb (load b.bytes 0 b.pos) (b.pos % u32)

-- A finish leaves the ring's mapping, descriptor, path and size.
pub finish-handle :
    (started : Span) (rb : RingBuf) (b : Buf) (ctx : Context) (min max : ℕ) (now : Timespec)
    → handle_of (finish started rb b ctx min max now).rb ≡ handle_of rb
unfolding finish
finish-handle started rb b ctx min max now =
    elim (Bool-cases (is_filtered (timed_span started now) min)) [
      | inl e ↦ rw e refl
      | inr e ↦ rw e (
          deliver-handle (finished_span started max now) rb _
            (encode (finished_span started max now) (reset b)))
    ]

-- The payload leaves a span's id, its parent's and its trace's, its type and its start.
abbrev pub SameIds : Span → Span → Type 0
SameIds a b =
    (b.parent_id ≡ a.parent_id)
    × (b.span_id ≡ a.span_id)
    × (b.trace_id ≡ a.trace_id)
    × (b.span_type ≡ a.span_type)
    × (b.start_ns ≡ a.start_ns)

pub with_query-ids :
    (span : Span) (frame : Frame) (max : ℕ) (arg : Pointer × ℕ)
    → SameIds span (with_query span frame max arg)
unfolding with_query set_db
with_query-ids span frame max (none, len) = (refl, refl, refl, refl, refl)
with_query-ids span frame max (some query, len) = (refl, refl, refl, refl, refl)

pub with_path-ids : (span : Span) (arg : Pointer × ℕ) → SameIds span (with_path span arg)
unfolding with_path set_file_io
with_path-ids span (none, len) = (refl, refl, refl, refl, refl)
with_path-ids span (some path, len) = (refl, refl, refl, refl, refl)

pub with_payload-ids :
    (span : Span) (frame : Frame) (type max : ℕ) → SameIds span (with_payload span frame type max)
unfolding with_payload set_cache
with_payload-ids span frame type max = elim (Bool-cases (type == span_db)) [
  | inl e ↦ rw e (with_query-ids span frame max (extract_first_str_arg frame))
  | inr e₁ ↦
      elim (Bool-cases (type == span_redis || type == span_memcached || type == span_cache)) [
        | inl e ↦ rw (e₁, e) (refl, refl, refl, refl, refl)
        | inr e₂ ↦ elim (Bool-cases (type == span_file_io)) [
          | inl e ↦ rw (e₁, e₂, e) (with_path-ids span (extract_first_str_arg frame))
          | inr e₃ ↦ rw (e₁, e₂, e₃) (refl, refl, refl, refl, refl)
        ]
      ]
]
