-- ===== src/Span/Mkey.antt =====
-- The keys of the packed map, `LUMBRE_MKEY_*` of lumbre_span.h.
use lumbre_ext.Common.{ℕ, List, codes}

abbrev pub type : List ℕ
type = codes "t"

abbrev pub trace_id : List ℕ
trace_id = codes "tid"

abbrev pub span_id : List ℕ
span_id = codes "sid"

abbrev pub parent_id : List ℕ
parent_id = codes "pid"

abbrev pub start_ns : List ℕ
start_ns = codes "s"

abbrev pub duration : List ℕ
duration = codes "d"

abbrev pub url : List ℕ
url = codes "url"

abbrev pub method : List ℕ
method = codes "mth"

abbrev pub status : List ℕ
status = codes "st"

abbrev pub query : List ℕ
query = codes "q"

abbrev pub db_type : List ℕ
db_type = codes "dbt"

abbrev pub rows : List ℕ
rows = codes "r"

abbrev pub cache_cmd : List ℕ
cache_cmd = codes "cmd"

abbrev pub cache_key : List ℕ
cache_key = codes "k"

abbrev pub func_class : List ℕ
func_class = codes "cls"

abbrev pub func_name : List ℕ
func_name = codes "fn"

abbrev pub func_file : List ℕ
func_file = codes "f"

abbrev pub func_line : List ℕ
func_line = codes "l"

abbrev pub uri : List ℕ
uri = codes "uri"
