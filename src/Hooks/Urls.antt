-- ===== src/Hooks/Urls.antt =====
-- What lumbre_execute_internal of php_lumbre.c reports for file_get_contents and fopen, whose first
-- argument may be a URL.
use lumbre_ext.Common.{ℕ, false, List, none, some}
use lumbre_ext.Span.{Span}
use lumbre_ext.Hooks.{Frame}

-- A call of a global function with a string as its first argument.
abbrev pub frame_of : List ℕ → List ℕ → Frame
frame_of name path = record {
  function_name = some name;
  scope_name = none;
  first_arg = some path;
  is_user = false;
  filename = none;
  lineno = none;
}
