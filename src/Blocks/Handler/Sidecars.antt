-- ===== src/Blocks/Handler/Sidecars.antt =====
-- services/blocks/standard/handler.go: the blob sidecars of a block, which may be there already.
use chaind.Blocks.Rows.{Rows}
