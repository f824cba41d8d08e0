-- ===== src/X86/Moves/Nodes.antt =====
-- source/x86/decoder.c: the moves of `decode_nodes` and `decode_template`.
use amed.X86.Database.{Database}
use amed.X86.Moves.{Moves}
