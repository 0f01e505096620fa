-- ===== src/Request/Shape.antt =====
-- How the spans that a request of php_lumbre.c writes are related to one another.
use lumbre_ext.Whitelist as Whitelist
use lumbre_ext.Hooks.Calls.{Calls}
