-- ===== src/Login/Overlap.antt =====
-- Two polls of one login token that overlap.
use muvee.Text.{Text}
