-- ===== src/Span/Setters.antt =====
-- The payload setters of lumbre_span.h.
use lumbre_ext.Common.{ℕ, Pointer, ltb, if◌then◌else◌}
use lumbre_ext.Span.{Span}

unfoldable pub set_http_out : Span → Pointer → ℕ → Pointer → ℕ → ℕ → Span
set_http_out span url url_len method method_len status_code = record span {
  url = url;
  url_len = url_len;
  method = method;
  method_len = method_len;
  status_code = status_code;
}

unfoldable pub set_db : Span → Pointer → ℕ → Pointer → ℕ → ℕ → ℕ → Span
set_db span query query_len db_type db_type_len rows_affected max_query_len = record span {
  query = query;
  query_len = if ltb max_query_len query_len then max_query_len else query_len;
  db_type = db_type;
  db_type_len = db_type_len;
  rows_affected = rows_affected;
}

unfoldable pub set_cache : Span → Pointer → ℕ → Pointer → ℕ → Span
set_cache span cmd cmd_len key key_len = record span {
  cache_cmd = cmd;
  cache_cmd_len = cmd_len;
  cache_key = key;
  cache_key_len = key_len;
}

unfoldable pub set_func : Span → Pointer → ℕ → Pointer → ℕ → Pointer → ℕ → ℕ → Span
set_func span cls cls_len name name_len file file_len line = record span {
  func_class = cls;
  func_class_len = cls_len;
  func_name = name;
  func_name_len = name_len;
  func_file = file;
  func_file_len = file_len;
  func_line = line;
}

unfoldable pub set_http_in : Span → Pointer → ℕ → Pointer → ℕ → Span
set_http_in span uri uri_len method method_len = record span {
  request_uri = uri;
  request_uri_len = uri_len;
  method = method;
  method_len = method_len;
}

unfoldable pub set_file_io : Span → Pointer → ℕ → Span
set_file_io span path path_len = record span { url = path; url_len = path_len }
