-- ===== src/Span/Tests.antt =====
-- Spans on concrete inputs.
use lumbre_ext.Common.{
  ℕ, ◌^◌, ◌≤◌, ◌<◌, ◌≡◌, ◌≢◌, ◌↔◌, refl, arith, inl, inr, List, [], ◌∷◌, some, none, ok, error,
  codes, true, false,
}
use mathlib.Core.List.{Sublistᴰ}
use lumbre_ext.Memory.{fetch}
use lumbre_ext.Ring.{RingBuf}
use lumbre_ext.Ring.Write.{IsValid}
use lumbre_ext.Ring.Refine.{Holds}
use lumbre_ext.Ring.Frames.{done}
use lumbre_ext.Msgpack.{Buf}
use lumbre_ext.Msgpack.Emit.{IsFine, appended}
use lumbre_ext.Msgpack.Format.{enc_uint, enc_map, str_head, bin_head, be_bytes}
use lumbre_ext.Msgpack.RoundTrip.{new_bytes}
use lumbre_ext.Span.{Span, Context, Timespec, clock_ns, zero_span}
use lumbre_ext.Span.Encode.{encode}
use lumbre_ext.Span.Fields.{IsString, IsSpan, message, pairs, specific_pairs, enc_pairs}
use lumbre_ext.Span.Reader.{read_message}
use lumbre_ext.Span.Message.{read_message-message, encode-message, encode_overflow, encode_confined}
use lumbre_ext.Span.RoundTrip.{read_message-encode}
use lumbre_ext.Span.Valid.{finished_span}
use lumbre_ext.Span.Finish.{finish, elapsed, written, filtered, truncate_query}
use lumbre_ext.Span.Log.{log}
use lumbre_ext.Span.Queue.{messages_of, log-Holds}
use lumbre_ext.Span.Deliver.{delivered, finish_refines, finish_written, finish_filters}

-- A file read of 5 ms.
abbrev file_span : Span
file_span = record zero_span {
  span_type = 6;
  span_id = 2;
  parent_id = 1;
  start_ns = 1_000_000;
  url = some (codes "/etc/hosts");
  url_len = 10;
}

abbrev at_end : Timespec
at_end = record { tv_sec = 0; tv_nsec = 6_000_000 }

no_string : IsString none 0
no_string = record { text = refl; short = omega arith }

file_span-IsSpan : IsSpan file_span
file_span-IsSpan = record {
  span_type = omega arith;
  span_id = omega arith;
  parent_id = omega arith;
  start_ns = omega arith;
  duration_ns = omega arith;
  status_code = omega arith;
  rows_affected = omega arith;
  func_line = omega arith;
  url = record { text = tt; short = omega arith };
  method = no_string;
  query = no_string;
  db_type = no_string;
  cache_cmd = no_string;
  cache_key = no_string;
  func_class = no_string;
  func_name = no_string;
  func_file = no_string;
  request_uri = no_string;
}

abbrev buffer : ℕ → Buf
buffer n = record { bytes = λ i. 0; capacity = n; pos = 0 }

buffer-IsFine : (n : ℕ) → n < 2 ^ 63 → IsFine (buffer n)
buffer-IsFine n h = record { inside = omega arith; small = h }

abbrev context : Context
context = record {
  trace_id = [];
  root_span_id = 1;
  current_parent_id = 2;
  span_counter = 3;
  active = true;
  full_trace = false;
}

abbrev ring : RingBuf
ring = record {
  attached = true;
  header = record {
    magic = 0x54524143;
    version = 1;
    capacity = 256;
    write_pos = 0;
    read_pos = 0;
    dropped = 0;
    pid = 42;
    worker_id = 1;
  };
  data_region = λ i. 0;
  capacity = 256;
  mask = 255;
  local_write_pos = 0;
  fd = 3;
  mmap_size = 320;
  path = [];
  worker_id = 1;
}

ring-IsValid : IsValid ring
ring-IsValid = record {
  rounded = (8, refl);
  least = omega arith;
  greatest = omega arith;
  masked = refl;
  published = refl;
  behind = omega arith;
  filled = omega arith;
}

read_message-message_example : read_message (message file_span) ≡ some (pairs file_span, [])
read_message-message_example = read_message-message file_span file_span-IsSpan

read_message-encode_example :
    let (s, b') = encode file_span (buffer 100) in
    (s ≡ ok) × (read_message (new_bytes (buffer 100) b') ≡ some (pairs file_span, []))
unfolding message pairs specific_pairs enc_pairs enc_map enc_uint str_head bin_head be_bytes fetch
read_message-encode_example =
    read_message-encode file_span (buffer 100) file_span-IsSpan (buffer-IsFine 100 (omega arith))
      (omega arith)

encode-message_example :
    encode file_span (buffer 100) ≡ (ok, appended (buffer 100) (message file_span))
unfolding message pairs specific_pairs enc_pairs enc_map enc_uint str_head bin_head be_bytes fetch
encode-message_example =
    encode-message file_span (buffer 100) file_span-IsSpan (buffer-IsFine 100 (omega arith))
      (omega arith)

encode_overflow_example :
    let (s, b') = encode file_span (buffer 30) in (s ≡ error) × (b'.capacity ≡ 30) × (b'.pos ≤ 30)
unfolding message pairs specific_pairs enc_pairs enc_map enc_uint str_head bin_head be_bytes fetch
encode_overflow_example =
    encode_overflow file_span (buffer 30) file_span-IsSpan (buffer-IsFine 30 (omega arith))
      (omega arith)

encode_confined_example : (encode file_span (buffer 30)).1.bytes 30 ≡ 0
encode_confined_example =
    encode_confined file_span (buffer 30) 30 file_span-IsSpan (buffer-IsFine 30 (omega arith))
      (inr (omega arith))

finish_refines_example :
    let r = finish file_span ring (buffer 100) context 0 256 at_end in
    Holds r.rb (delivered r.result (message (finished_span file_span 256 at_end)))
finish_refines_example =
    finish_refines file_span ring (buffer 100) context 0 256 at_end file_span-IsSpan (omega arith)
      (record { valid = ring-IsValid; frames = done 0 }) (omega arith)

finish_written_example : (finish file_span ring (buffer 100) context 0 256 at_end).result ≡ written
unfolding message pairs specific_pairs enc_pairs enc_map enc_uint str_head bin_head be_bytes fetch
    elapsed truncate_query clock_ns
finish_written_example =
    finish_written file_span ring (buffer 100) context 0 256 at_end file_span-IsSpan (omega arith)
      ring-IsValid (omega arith) (inl refl) (omega arith) (omega arith)

finish_filters_run :
    ((finish file_span ring (buffer 100) context 6_000_000 256 at_end).result ≡ filtered)
    ↔ ((0 < 6_000_000) × (elapsed file_span at_end < 6_000_000) × (file_span.span_type ≢ 1))
finish_filters_run = finish_filters file_span ring (buffer 100) context 6_000_000 256 at_end

log-Holds_run :
    (kept : List (List ℕ)) × (Sublistᴰ kept (messages_of (file_span ∷ file_span ∷ [])))
    × Holds (log 100 ring (file_span ∷ file_span ∷ [])) kept
log-Holds_run =
    log-Holds 100 ring (file_span ∷ file_span ∷ []) []
      (record { valid = ring-IsValid; frames = done 0 }) (omega arith)
