-- ===== src/Span/Fields.antt =====
-- What a span's message says: the pairs of its map, by the span's type, and their bytes.
use lumbre_ext.Common.{
  ℕ, ◌+◌, ◌^◌, ◌<◌, ◌≡◌, refl, ap, sym, ◌∙◌, List, [], ◌∷◌, ◌++◌, append_assoc, length, Pointer,
  ◌==◌, ◌||◌, if◌then◌else◌, u16, u32, u64,
}
use lumbre_ext.Memory.{fetch}
use lumbre_ext.Msgpack.Format.{enc_uint, enc_map, enc_str, enc_bin}
use lumbre_ext.Memory.{pointed}
use lumbre_ext.Msgpack.Strings.{IsText}
use lumbre_ext.Msgpack.Decode.{Value, uint, str, bin, map}
use lumbre_ext.Span.Mkey
use lumbre_ext.Span.{
  Span, span_http_in, span_http_out, span_db, span_redis, span_memcached, span_file_io, span_socket,
  span_func,
}

-- A key and its value.
abbrev pub Pair : Type 0
Pair = List ℕ × Value

abbrev pub enc_value : Value → List ℕ
enc_value (uint v) = enc_uint v
enc_value (str bs) = enc_str bs
enc_value (bin bs) = enc_bin bs
enc_value (map n) = enc_map n

unfoldable pub enc_pairs : List Pair → List ℕ
enc_pairs [] = []
enc_pairs ((key, value) ∷ rest) = (enc_str key ++ enc_value value) ++ enc_pairs rest

pub enc_pairs-append : (xs ys : List Pair) → enc_pairs (xs ++ ys) ≡ enc_pairs xs ++ enc_pairs ys
unfolding enc_pairs
enc_pairs-append [] ys = refl
enc_pairs-append ((key, value) ∷ rest) ys =
    ap (λ l. (enc_str key ++ enc_value value) ++ l) (enc_pairs-append rest ys)
    ∙ sym (append_assoc (enc_str key ++ enc_value value) (enc_pairs rest) (enc_pairs ys))

abbrev pub text : Pointer → ℕ → Value
text p len = str (pointed p len)

abbrev pub common_pairs : Span → List Pair
common_pairs span =
    (Mkey.type, uint span.span_type)
    ∷ (Mkey.trace_id, bin (fetch span.trace_id 16))
    ∷ (Mkey.span_id, uint span.span_id)
    ∷ (Mkey.parent_id, uint span.parent_id)
    ∷ (Mkey.start_ns, uint span.start_ns)
    ∷ (Mkey.duration, uint span.duration_ns)
    ∷ []

abbrev pub http_in_pairs : Span → List Pair
http_in_pairs span =
    (Mkey.uri, text span.request_uri span.request_uri_len)
    ∷ (Mkey.method, text span.method span.method_len)
    ∷ []

abbrev pub http_out_pairs : Span → List Pair
http_out_pairs span =
    (Mkey.url, text span.url span.url_len)
    ∷ (Mkey.method, text span.method span.method_len)
    ∷ (Mkey.status, uint span.status_code)
    ∷ []

abbrev pub db_pairs : Span → List Pair
db_pairs span =
    (Mkey.query, text span.query span.query_len)
    ∷ (Mkey.db_type, text span.db_type span.db_type_len)
    ∷ (Mkey.rows, uint span.rows_affected)
    ∷ []

abbrev pub cache_pairs : Span → List Pair
cache_pairs span =
    (Mkey.cache_cmd, text span.cache_cmd span.cache_cmd_len)
    ∷ (Mkey.cache_key, text span.cache_key span.cache_key_len)
    ∷ []

abbrev pub url_pairs : Span → List Pair
url_pairs span = (Mkey.url, text span.url span.url_len) ∷ []

abbrev pub func_pairs : Span → List Pair
func_pairs span =
    (Mkey.func_class, text span.func_class span.func_class_len)
    ∷ (Mkey.func_name, text span.func_name span.func_name_len)
    ∷ (Mkey.func_file, text span.func_file span.func_file_len)
    ∷ (Mkey.func_line, uint span.func_line)
    ∷ []

unfoldable pub specific_pairs : Span → List Pair
specific_pairs span =
    if span.span_type == span_http_in
    then http_in_pairs span
    else if span.span_type == span_http_out
    then http_out_pairs span
    else if span.span_type == span_db
    then db_pairs span
    else if span.span_type == span_redis || span.span_type == span_memcached
    then cache_pairs span
    else if span.span_type == span_file_io || span.span_type == span_socket
    then url_pairs span
    else if span.span_type == span_func
    then func_pairs span
    else []

unfoldable pub pairs : Span → List Pair
pairs span = common_pairs span ++ specific_pairs span

-- The whole message: the map's header, then the pairs.
unfoldable pub message : Span → List ℕ
message span = enc_map (length (pairs span)) ++ enc_pairs (pairs span)

-- A string that a span points to: NULL has length 0, and the length fits 32 bits with a header.
pub record IsString (p : Pointer) (len : ℕ) : Type 0 where
  pub text : IsText p len
  pub short : len + 5 < 2 ^ 32

-- The integers fit their fields, and the strings are strings.
pub record IsSpan (span : Span) : Type 0 where
  pub span_type : span.span_type < 256
  pub span_id : span.span_id < u64
  pub parent_id : span.parent_id < u64
  pub start_ns : span.start_ns < u64
  pub duration_ns : span.duration_ns < u64
  pub status_code : span.status_code < u16
  pub rows_affected : span.rows_affected < u32
  pub func_line : span.func_line < u32
  pub url : IsString span.url span.url_len
  pub method : IsString span.method span.method_len
  pub query : IsString span.query span.query_len
  pub db_type : IsString span.db_type span.db_type_len
  pub cache_cmd : IsString span.cache_cmd span.cache_cmd_len
  pub cache_key : IsString span.cache_key span.cache_key_len
  pub func_class : IsString span.func_class span.func_class_len
  pub func_name : IsString span.func_name span.func_name_len
  pub func_file : IsString span.func_file span.func_file_len
  pub request_uri : IsString span.request_uri span.request_uri_len
