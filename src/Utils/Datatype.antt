-- ===== src/Utils/Datatype.antt =====
-- source/utils/datatype.h, over the values of `amed_datatype` (include/amed/shared/enums.inc).
pub mod Normalized
use amed.Base.{ℕ, Bool, true, false, ◌==◌, if◌then◌else◌}

-- The constructors stand in the enumeration's order.
pub data Datatype : Type 0 where
  none f16 bf16 f32 f64 f80 bcd80 : Datatype
  i8 i16 i32 i64 i128 i256 : Datatype
  s8 s16 s32 s64 : Datatype
  u8 u16 u32 u64 u128 u256 : Datatype
  p8 p64 ix sx ux : Datatype

-- In bits.
unfoldable pub get_datatype_size : Datatype → ℕ
get_datatype_size none = 0
get_datatype_size i8 = 8
get_datatype_size i16 = 16
get_datatype_size i32 = 32
get_datatype_size i64 = 64
get_datatype_size i128 = 128
get_datatype_size i256 = 256
get_datatype_size s8 = 8
get_datatype_size s16 = 16
get_datatype_size s32 = 32
get_datatype_size s64 = 64
get_datatype_size u8 = 8
get_datatype_size u16 = 16
get_datatype_size u32 = 32
get_datatype_size u64 = 64
get_datatype_size u128 = 128
get_datatype_size u256 = 256
get_datatype_size f16 = 16
get_datatype_size bf16 = 16
get_datatype_size f32 = 32
get_datatype_size f64 = 64
get_datatype_size f80 = 80
get_datatype_size bcd80 = 80
get_datatype_size p8 = 8
get_datatype_size p64 = 64
get_datatype_size _ = 0

unfoldable pub is_datatype_signed : Datatype → Bool
is_datatype_signed s8 = true
is_datatype_signed s16 = true
is_datatype_signed s32 = true
is_datatype_signed s64 = true
is_datatype_signed sx = true
is_datatype_signed _ = false

-- The `switch` on the size falls through to the data type itself.
unfoldable pub get_normalized_datatype : Datatype → ℕ → Datatype
get_normalized_datatype sx size =
    if size == 8
    then s8
    else if size == 16
    then s16
    else if size == 32
    then s32
    else if size == 64
    then s64
    else sx
get_normalized_datatype none size =
    if size == 8
    then i8
    else if size == 16
    then i16
    else if size == 32
    then i32
    else if size == 64
    then i64
    else none
get_normalized_datatype datatype size = datatype
