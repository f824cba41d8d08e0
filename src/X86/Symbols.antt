-- ===== src/X86/Symbols.antt =====
-- `amed_x86_symbol` and `amed_x86_encodedin` of source/x86/db.h. They are numbers, since the
-- decoder computes an index from the distance of two symbols.
use amed.Base.{ℕ}

abbrev pub symbol_none : ℕ
symbol_none = 0

abbrev pub symbol_axa : ℕ
symbol_axa = 1

abbrev pub symbol_ipa : ℕ
symbol_ipa = 9

abbrev pub symbol_axv : ℕ
symbol_axv = 10

abbrev pub symbol_ipv : ℕ
symbol_ipv = 18

abbrev pub symbol_gpra : ℕ
symbol_gpra = 19

abbrev pub symbol_gprv : ℕ
symbol_gprv = 20

abbrev pub symbol_gpry : ℕ
symbol_gpry = 21

abbrev pub symbol_gprz : ℕ
symbol_gprz = 22

abbrev pub symbol_gpr8 : ℕ
symbol_gpr8 = 23

abbrev pub symbol_gpr16 : ℕ
symbol_gpr16 = 24

abbrev pub symbol_gpr32 : ℕ
symbol_gpr32 = 25

abbrev pub symbol_gpr64 : ℕ
symbol_gpr64 = 26

abbrev pub symbol_segreg : ℕ
symbol_segreg = 27

abbrev pub symbol_fpreg : ℕ
symbol_fpreg = 28

abbrev pub symbol_mmxreg : ℕ
symbol_mmxreg = 29

abbrev pub symbol_dreg : ℕ
symbol_dreg = 30

abbrev pub symbol_creg : ℕ
symbol_creg = 31

abbrev pub symbol_maskreg : ℕ
symbol_maskreg = 32

abbrev pub symbol_xmmreg : ℕ
symbol_xmmreg = 33

abbrev pub symbol_ymmreg : ℕ
symbol_ymmreg = 34

abbrev pub symbol_zmmreg : ℕ
symbol_zmmreg = 35

abbrev pub symbol_bndreg : ℕ
symbol_bndreg = 36

abbrev pub symbol_vmx : ℕ
symbol_vmx = 42

abbrev pub symbol_vmy : ℕ
symbol_vmy = 43

abbrev pub symbol_vmz : ℕ
symbol_vmz = 44

abbrev pub symbol_shl : ℕ
symbol_shl = 67

abbrev pub symbol_shr : ℕ
symbol_shr = 68

abbrev pub encodedin_vprefix : ℕ
encodedin_vprefix = 2

abbrev pub encodedin_reg : ℕ
encodedin_reg = 6

abbrev pub encodedin_rm : ℕ
encodedin_rm = 7

abbrev pub encodedin_aaa : ℕ
encodedin_aaa = 8

abbrev pub encodedin_vvvv : ℕ
encodedin_vvvv = 9

abbrev pub encodedin_sib_base : ℕ
encodedin_sib_base = 10

abbrev pub encodedin_sib_index : ℕ
encodedin_sib_index = 11

abbrev pub encodedin_opcode : ℕ
encodedin_opcode = 12

abbrev pub encodedin_is4 : ℕ
encodedin_is4 = 13
