-- ===== src/Pipeline/Drained.antt =====
-- The daemon's reading loop on the ring of a worker of php_lumbre.c.
use lumbre_ext.Common.{List}
use lumbre_ext.Span.{Span}
