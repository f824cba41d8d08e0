-- ===== src/Utils/Datatype/Normalized.antt =====
-- source/utils/datatype.h: `get_normalized_datatype`.
use amed.Base.{ℕ, ◌≡◌, ◌⊎◌, refl, arith}
use amed.Utils.Datatype.{Datatype, get_datatype_size, is_datatype_signed, get_normalized_datatype}

-- For every data type and size, `get_normalized_datatype` keeps the signedness, and a second normalising at the
-- same size changes nothing more.
pub get_normalized_datatype_keeps :
    (d : Datatype) (size : ℕ)
    → (is_datatype_signed (get_normalized_datatype d size) ≡ is_datatype_signed d)
      × (get_normalized_datatype (get_normalized_datatype d size) size
          ≡ get_normalized_datatype d size)
unfolding is_datatype_signed get_normalized_datatype
get_normalized_datatype_keeps Datatype.none size = ground arith
get_normalized_datatype_keeps Datatype.sx size = ground arith
get_normalized_datatype_keeps d size = (refl, refl)

-- At 8, 16, 32 or 64 bits, `get_normalized_datatype` gives the two open data types that size.
pub size-get_normalized_datatype :
    (d : Datatype) (size : ℕ)
    → (d ≡ Datatype.none) ⊎ (d ≡ Datatype.sx)
    → (size ≡ 8) ⊎ (size ≡ 16) ⊎ (size ≡ 32) ⊎ (size ≡ 64)
    → get_datatype_size (get_normalized_datatype d size) ≡ size
unfolding get_datatype_size get_normalized_datatype
size-get_normalized_datatype d size free sized = ground arith
