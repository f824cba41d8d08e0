-- ===== src/X86/Nodes/Described.antt =====
-- source/x86/decoder.c, `decode_nodes` and `decode_template`: how many arguments are counted.
use amed.Base.{ℕ, ◌+◌, List, [], ◌∷◌, Bool, true, false, if◌then◌else◌}
use amed.X86.Database.{Node, Database}
use amed.X86.Nodes.Others.{Others}
use amed.X86.Nodes.Typed.{Typed}

-- The nodes that describe an argument; the others change the argument of one before them.
unfoldable pub describes_argument : Node → Bool
describes_argument Node.bcst = false
describes_argument (Node.sbcst from to) = false
describes_argument Node.swz_reg = false
describes_argument (Node.swz_mem table) = false
describes_argument Node.other = false
describes_argument _ = true

unfoldable pub described_arguments : List Node → ℕ
described_arguments [] = 0
described_arguments (n ∷ ns) = (if describes_argument n then 1 else 0) + described_arguments ns
