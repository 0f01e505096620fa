-- ===== src/Whitelist/Entries.antt =====
-- The static table of lumbre_whitelist.c.
use lumbre_ext.Common.{ℕ, List, [], ◌∷◌, Pointer, none, some, codes}
use Prim.Native.String.{String}
use lumbre_ext.Span.{span_http_out, span_db, span_redis, span_memcached, span_file_io, span_socket}

-- `lumbre_wl_static_entry_t`
pub record StaticEntry : Type 0 where
  pub class_name : Pointer
  pub class_len : ℕ
  pub func_name : Pointer
  pub func_len : ℕ
  pub span_type : ℕ

-- A row of the table: of a global function, or of a method.
abbrev pub global : String → ℕ → ℕ → StaticEntry
global name len type = record {
  class_name = none;
  class_len = 0;
  func_name = some (codes name);
  func_len = len;
  span_type = type;
}

abbrev pub method : String → ℕ → String → ℕ → ℕ → StaticEntry
method cls cls_len name len type = record {
  class_name = some (codes cls);
  class_len = cls_len;
  func_name = some (codes name);
  func_len = len;
  span_type = type;
}

unfoldable pub static_table : List StaticEntry
static_table =
    global "curl_exec" 9 span_http_out
    ∷ global "curl_multi_exec" 15 span_http_out
    ∷ method "PDO" 3 "execute" 7 span_db
    ∷ method "PDO" 3 "query" 5 span_db
    ∷ global "mysqli_query" 12 span_db
    ∷ global "mysqli_real_query" 17 span_db
    ∷ global "pg_query" 8 span_db
    ∷ global "pg_execute" 10 span_db
    ∷ method "Redis" 5 "get" 3 span_redis
    ∷ method "Redis" 5 "set" 3 span_redis
    ∷ method "Redis" 5 "mget" 4 span_redis
    ∷ method "Redis" 5 "pipeline" 8 span_redis
    ∷ method "Memcached" 9 "get" 3 span_memcached
    ∷ method "Memcached" 9 "set" 3 span_memcached
    ∷ method "Memcached" 9 "getMulti" 8 span_memcached
    ∷ global "file_get_contents" 17 span_file_io
    ∷ global "file_put_contents" 17 span_file_io
    ∷ global "fopen" 5 span_file_io
    ∷ global "fwrite" 6 span_file_io
    ∷ global "fread" 5 span_file_io
    ∷ global "fsockopen" 9 span_socket
    ∷ global "stream_socket_client" 20 span_socket
    ∷ []
