-- ===== src/Utils/Examples.antt =====
-- The helpers of source/utils at concrete words.

use amed.Base.{◌≡◌, arith, some}
use amed.Base.Int.{signed}
use amed.Utils.Binary.{sign_extend64}
use amed.Utils.Binary.Extend.{sign_extend64_lem}

sign_extend64_example : sign_extend64 0x80000000 31 ≡ some (signed 32 0x80000000)
sign_extend64_example = sign_extend64_lem 0x80000000 31 (omega arith) (omega arith)
