-- ===== src/X86/Register/Number.antt =====
-- source/x86/decoder.c: the number of a register, its 3-bit field and the bits of the prefixes.
use amed.Base.{ℕ, ◌+◌, ◌*◌, ◌%◌, ◌^◌, ◌<◌, ◌≡◌, min, max, Bool, false, bit, ◌==◌, if◌then◌else◌}
use amed.X86.Names.{
  register_ax, register_eax, register_rax, register_xmm0, register_ymm0, register_zmm0,
  register_cr0, register_dr0,
}
use amed.X86.Symbols.{
  symbol_xmmreg, symbol_ymmreg, symbol_zmmreg, symbol_creg, symbol_dreg, symbol_gpr16, symbol_gpr32,
  symbol_gpr64, symbol_gpra, symbol_gprv, symbol_gpry, symbol_gprz, encodedin_reg, encodedin_rm,
  encodedin_sib_base, encodedin_sib_index, encodedin_opcode,
}
use amed.X86.Diagram.{Diagram}
use amed.X86.Register.{Index, mode_index, scaled_symbol, class_register}

-- The fields of 3 bits that encode a register.
pub data Place : Type 0 where
  opcode : Place
  reg : Place
  rm : Place
  sib_base : Place
  sib_index : Place

abbrev pub encodedin_of : Place → ℕ
encodedin_of Place.opcode = encodedin_opcode
encodedin_of Place.reg = encodedin_reg
encodedin_of Place.rm = encodedin_rm
encodedin_of Place.sib_base = encodedin_sib_base
encodedin_of Place.sib_index = encodedin_sib_index

abbrev pub field_of : Place → Diagram → ℕ
field_of Place.opcode d = d.opcode % 8
field_of Place.reg d = d.reg
field_of Place.rm d = d.rm
field_of Place.sib_base d = d.base
field_of Place.sib_index d = d.index

-- The bits of the prefixes above the field: the fourth of the number, and the fifth.
abbrev pub fourth_bit : Place → Diagram → Bool
fourth_bit Place.reg d = d.r
fourth_bit Place.sib_index d = d.x
fourth_bit _ d = d.b

abbrev pub fifth_bit : Place → Diagram → Bool
fifth_bit Place.reg d = d.rp
fifth_bit Place.rm d = d.x
fifth_bit Place.sib_index d = d.vp
fifth_bit _ d = false

-- The number of the register, of 5 bits.
unfoldable pub register_number : Place → Diagram → ℕ
register_number p d = bit (fifth_bit p d) * 16 + (bit (fourth_bit p d) * 8 + field_of p d)

-- The classes of registers with a number: vectors, control and debug registers, general
-- registers of a width, and general registers by the size of addresses or of operands.
pub data Class : Type 0 where
  xmm : Class
  ymm : Class
  zmm : Class
  control : Class
  debug : Class
  gpr16 : Class
  gpr32 : Class
  gpr64 : Class
  gpra : Class
  gprv : Class
  gpry : Class
  gprz : Class

abbrev pub symbol_of : Class → ℕ
symbol_of Class.xmm = symbol_xmmreg
symbol_of Class.ymm = symbol_ymmreg
symbol_of Class.zmm = symbol_zmmreg
symbol_of Class.control = symbol_creg
symbol_of Class.debug = symbol_dreg
symbol_of Class.gpr16 = symbol_gpr16
symbol_of Class.gpr32 = symbol_gpr32
symbol_of Class.gpr64 = symbol_gpr64
symbol_of Class.gpra = symbol_gpra
symbol_of Class.gprv = symbol_gprv
symbol_of Class.gpry = symbol_gpry
symbol_of Class.gprz = symbol_gprz

-- The first general register of a width.
abbrev pub gpr_of_width : ℕ → ℕ
gpr_of_width width =
    if width == 16 then register_ax else if width == 32 then register_eax else register_rax

-- The first register of a class: a size of 0, 1 or 2 is one of 16, 32 or 64 bits, `y` stands for
-- at least 32 bits, and `z` for at most 32.
unfoldable pub first_register : Class → ℕ → ℕ → ℕ
first_register Class.xmm asz osz = register_xmm0
first_register Class.ymm asz osz = register_ymm0
first_register Class.zmm asz osz = register_zmm0
first_register Class.control asz osz = register_cr0
first_register Class.debug asz osz = register_dr0
first_register Class.gpr16 asz osz = gpr_of_width 16
first_register Class.gpr32 asz osz = gpr_of_width 32
first_register Class.gpr64 asz osz = gpr_of_width 64
first_register Class.gpra asz osz = gpr_of_width (16 * 2 ^ asz)
first_register Class.gprv asz osz = gpr_of_width (16 * 2 ^ osz)
first_register Class.gpry asz osz = gpr_of_width (max 32 (16 * 2 ^ osz))
first_register Class.gprz asz osz = gpr_of_width (min 32 (16 * 2 ^ osz))

-- How many registers the class has in 64-bit mode; outside it, every class has 8.
abbrev pub class_size : Class → ℕ
class_size Class.xmm = 32
class_size Class.ymm = 32
class_size Class.zmm = 32
class_size _ = 16

abbrev pub mode_size : Bool → ℕ → ℕ
mode_size long_mode size = if long_mode then size else 8

-- The index of a field, and what it is or-ed to in the two modes.
module _ (idx : ℕ) (e e2 : Bool) where
  abbrev split_index : Index
  split_index = record { idx = idx; extension = bit e * 8; extension2 = bit e2 * 16 }

  abbrev whole : ℕ
  whole = bit e2 * 16 + (bit e * 8 + idx)

  module _ (h : idx < 8) where
    abbrev class_value : Bool → Class → Bool → ℕ → ℕ → ℕ → ℕ
    class_value long c has_rex value asz osz =
        let j = mode_index long split_index in
        let (symbol, idx1) = scaled_symbol (symbol_of c) j.idx asz osz in
        class_register symbol (record j { idx = idx1 }) has_rex value

    module _ (long has_rex : Bool) (value : ℕ) where
      abbrev Numbered : Class → ℕ → ℕ → Type 0
      Numbered c asz osz =
          class_value long c has_rex value asz osz
          ≡ first_register c asz osz + whole % mode_size long (class_size c)
