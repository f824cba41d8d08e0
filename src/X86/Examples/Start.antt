-- ===== src/X86/Examples/Start.antt =====
-- The state before `add rax, [rax + rcx * 2 - 8]` is decoded.
use amed.Base.{ℕ, false, none, List, [], ◌∷◌, get_or}
use amed.Base.Int.{pos}
use amed.Utils.Datatype.{Datatype}
use amed.X86.Diagram.{Diagram}
use amed.X86.State.{Internal}
use amed.X86.Examples.Fixture.{database, add_template, empty_insn}

abbrev pub blank_diagram : Diagram
blank_diagram = record {
  modreg = false;
  reg = 0;
  cr = false;
  rm = 0;
  len = 0;
  yosz = false;
  zosz = false;
  f2 = false;
  f3 = false;
  p66 = false;
  fb = false;
  enc = 0;
  e = false;
  asz = 0;
  yasz = false;
  long_mode = false;
  w = false;
  features = 0;
  disp = pos 0;
  aaa = 0;
  vvvv = 0;
  scale = 0;
  base = 0;
  index = 0;
  is4 = 0;
  modrm_mod = 0;
  osz = 0;
  vl = 0;
  ll = 0;
  sss = 0;
  opcode = 0;
  has_modrm = false;
  has_sib = false;
  has_disp = false;
  has_is4 = false;
  has_rex = false;
  r = false;
  x = false;
  b = false;
  rp = false;
  vp = false;
  bp = false;
  z = false;
  f0 = false;
}

abbrev pub code : List ℕ
code = 0x48 ∷ 0x03 ∷ 0x44 ∷ 0x48 ∷ 0xf8 ∷ []

abbrev pub start : Internal
start = record {
  insn = empty_insn;
  iencoding = 0;
  encoding = database.encodings 0;
  ptemplate = add_template;
  vreg = none;
  vmem = none;
  src_reg = none;
  diagram = blank_diagram;
  address = λ i. get_or code i 0;
  pc = 0;
  nb = 5;
  vfpc = 0;
  mapidx = 0;
  segment = 0;
  last_f_prefix = 0;
  base_ip = 0;
  disp_datatype = Datatype.none;
  has_base = false;
  has_index = false;
  uses_compressed_disp = false;
}
