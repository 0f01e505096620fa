-- ===== src/Span/Encode.antt =====
-- lumbre_span_encode: the map of a span, packed key by key.
use lumbre_ext.Common.{ℕ, Status, ok, some, ◌==◌, ◌||◌, if◌then◌else◌}
use lumbre_ext.Msgpack.{Buf, ◌>>=◌, pack_map, pack_str_kv, pack_uint_kv, pack_bin_kv}
use lumbre_ext.Span.Mkey
use lumbre_ext.Span.{
  Span, span_http_in, span_http_out, span_db, span_redis, span_memcached, span_file_io, span_socket,
  span_func,
}

unfoldable pub field_count : ℕ → ℕ
field_count type =
    if type == span_http_in
    then 8
    else if type == span_http_out
    then 9
    else if type == span_db
    then 9
    else if type == span_redis || type == span_memcached
    then 8
    else if type == span_file_io || type == span_socket
    then 7
    else if type == span_func
    then 10
    else 6

unfoldable pub encode_common : Span → Buf → Status × Buf
encode_common span b₀ = do
  b₁ ← pack_uint_kv b₀ (some Mkey.type) 1 span.span_type
  b₂ ← pack_bin_kv b₁ (some Mkey.trace_id) 3 (some span.trace_id) 16
  b₃ ← pack_uint_kv b₂ (some Mkey.span_id) 3 span.span_id
  b₄ ← pack_uint_kv b₃ (some Mkey.parent_id) 3 span.parent_id
  b₅ ← pack_uint_kv b₄ (some Mkey.start_ns) 1 span.start_ns
  pack_uint_kv b₅ (some Mkey.duration) 1 span.duration_ns

unfoldable pub encode_http_in : Span → Buf → Status × Buf
encode_http_in span b = do
  b' ← pack_str_kv b (some Mkey.uri) 3 span.request_uri span.request_uri_len
  pack_str_kv b' (some Mkey.method) 3 span.method span.method_len

unfoldable pub encode_http_out : Span → Buf → Status × Buf
encode_http_out span b = do
  b' ← pack_str_kv b (some Mkey.url) 3 span.url span.url_len
  b'' ← pack_str_kv b' (some Mkey.method) 3 span.method span.method_len
  pack_uint_kv b'' (some Mkey.status) 2 span.status_code

unfoldable pub encode_db : Span → Buf → Status × Buf
encode_db span b = do
  b' ← pack_str_kv b (some Mkey.query) 1 span.query span.query_len
  b'' ← pack_str_kv b' (some Mkey.db_type) 3 span.db_type span.db_type_len
  pack_uint_kv b'' (some Mkey.rows) 1 span.rows_affected

unfoldable pub encode_cache : Span → Buf → Status × Buf
encode_cache span b = do
  b' ← pack_str_kv b (some Mkey.cache_cmd) 3 span.cache_cmd span.cache_cmd_len
  pack_str_kv b' (some Mkey.cache_key) 1 span.cache_key span.cache_key_len

unfoldable pub encode_url : Span → Buf → Status × Buf
encode_url span b = pack_str_kv b (some Mkey.url) 3 span.url span.url_len

unfoldable pub encode_func : Span → Buf → Status × Buf
encode_func span b = do
  b' ← pack_str_kv b (some Mkey.func_class) 3 span.func_class span.func_class_len
  b'' ← pack_str_kv b' (some Mkey.func_name) 2 span.func_name span.func_name_len
  b''' ← pack_str_kv b'' (some Mkey.func_file) 1 span.func_file span.func_file_len
  pack_uint_kv b''' (some Mkey.func_line) 1 span.func_line

-- The second `switch`.
unfoldable pub encode_specific : Span → Buf → Status × Buf
encode_specific span b =
    if span.span_type == span_http_in
    then encode_http_in span b
    else if span.span_type == span_http_out
    then encode_http_out span b
    else if span.span_type == span_db
    then encode_db span b
    else if span.span_type == span_redis || span.span_type == span_memcached
    then encode_cache span b
    else if span.span_type == span_file_io || span.span_type == span_socket
    then encode_url span b
    else if span.span_type == span_func
    then encode_func span b
    else (ok, b)

unfoldable pub encode : Span → Buf → Status × Buf
encode span b = do
  b' ← pack_map b (field_count span.span_type)
  b'' ← encode_common span b'
  encode_specific span b''
