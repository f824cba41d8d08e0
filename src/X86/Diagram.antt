-- ===== src/X86/Diagram.antt =====
-- source/x86/decoder.c, `x86_diagram`: the fields of the instruction, normalised. The first
-- fields, up to `features`, share the 32-bit word `hashcode`.
use amed.Base.{ℕ, ◌+◌, ◌*◌, ◌^◌, Bool, field, flag, bit}
use amed.Base.Int.{ℤ}

-- `modrm_mod` is the source's `mod`.
pub record Diagram : Type 0 where
  pub modreg : Bool
  pub reg : ℕ
  pub cr : Bool
  pub rm : ℕ
  pub len : ℕ
  pub yosz : Bool
  pub zosz : Bool
  pub f2 : Bool
  pub f3 : Bool
  pub p66 : Bool
  pub fb : Bool
  pub enc : ℕ
  pub e : Bool
  pub asz : ℕ
  pub yasz : Bool
  pub long_mode : Bool
  pub w : Bool
  pub features : ℕ
  pub disp : ℤ
  pub aaa : ℕ
  pub vvvv : ℕ
  pub scale : ℕ
  pub base : ℕ
  pub index : ℕ
  pub is4 : ℕ
  pub modrm_mod : ℕ
  pub osz : ℕ
  pub vl : ℕ
  pub ll : ℕ
  pub sss : ℕ
  pub opcode : ℕ
  pub has_modrm : Bool
  pub has_sib : Bool
  pub has_disp : Bool
  pub has_is4 : Bool
  pub has_rex : Bool
  pub r : Bool
  pub x : Bool
  pub b : Bool
  pub rp : Bool
  pub vp : Bool
  pub bp : Bool
  pub z : Bool
  pub f0 : Bool

-- The word that the first fields make up.
unfoldable pub hashcode : Diagram → ℕ
hashcode d =
    bit d.modreg
    + d.reg * 2 ^ 1
    + bit d.cr * 2 ^ 4
    + d.rm * 2 ^ 5
    + d.len * 2 ^ 8
    + bit d.yosz * 2 ^ 10
    + bit d.zosz * 2 ^ 11
    + bit d.f2 * 2 ^ 12
    + bit d.f3 * 2 ^ 13
    + bit d.p66 * 2 ^ 14
    + bit d.fb * 2 ^ 15
    + d.enc * 2 ^ 16
    + bit d.e * 2 ^ 19
    + d.asz * 2 ^ 20
    + bit d.yasz * 2 ^ 22
    + bit d.long_mode * 2 ^ 23
    + bit d.w * 2 ^ 24
    + d.features * 2 ^ 25

-- `pdiagram->hashcode = h`.
unfoldable pub set_hashcode : ℕ → Diagram → Diagram
set_hashcode h d = record d {
  modreg = flag 0 h;
  reg = field 1 3 h;
  cr = flag 4 h;
  rm = field 5 3 h;
  len = field 8 2 h;
  yosz = flag 10 h;
  zosz = flag 11 h;
  f2 = flag 12 h;
  f3 = flag 13 h;
  p66 = flag 14 h;
  fb = flag 15 h;
  enc = field 16 3 h;
  e = flag 19 h;
  asz = field 20 2 h;
  yasz = flag 22 h;
  long_mode = flag 23 h;
  w = flag 24 h;
  features = field 25 7 h;
}

-- `pdiagram->attributes = 0`.
unfoldable pub clear_attributes : Diagram → Diagram
clear_attributes d = record d {
  has_modrm = Bool.false;
  has_sib = Bool.false;
  has_disp = Bool.false;
  has_is4 = Bool.false;
  has_rex = Bool.false;
  r = Bool.false;
  x = Bool.false;
  b = Bool.false;
  rp = Bool.false;
  vp = Bool.false;
  bp = Bool.false;
  z = Bool.false;
  f0 = Bool.false;
}
