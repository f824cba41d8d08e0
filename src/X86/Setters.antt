-- ===== src/X86/Setters.antt =====
-- source/x86/decoder.c, the setters of the fields that several prefixes have.
use amed.Base.{ℕ, ◌-◌, Bool, true, false, not, ◌||◌, ◌==◌, leb, if◌then◌else◌}
use amed.X86.Names.{map_idx_0f, map_idx_0f38, map_idx_0f3a}
use amed.X86.State.{Internal}

unfoldable pub set_pp_field : Internal → ℕ → Internal
set_pp_field s value = record s {
  diagram = record (s.diagram) {
    p66 = value == 1 || s.diagram.p66;
    f3 = value == 2 || s.diagram.f3;
    f2 = value == 3 || s.diagram.f2;
  };
}

unfoldable pub set_ll_field : Internal → ℕ → Internal × Bool
set_ll_field s value =
    if leb value 3
    then (
      record s {
        diagram = record (s.diagram) {
          vl = if value == 0 then 0 else if value == 1 then 1 else 2;
          ll = value;
        };
      },
      true,
    )
    else (s, false)

unfoldable pub set_mmmmm_field : Internal → ℕ → Internal × Bool
set_mmmmm_field s value =
    if value == 1
    then (record s { mapidx = map_idx_0f }, true)
    else if value == 2
    then (record s { mapidx = map_idx_0f38 }, true)
    else if value == 3
    then (record s { mapidx = map_idx_0f3a }, true)
    else (s, false)

unfoldable pub set_w_field : Internal → Bool → Internal
set_w_field s value = record s {
  diagram = record (s.diagram) { w = value; osz = if value then 2 else s.diagram.osz };
}

-- The inverted fields R, X, B and vvvv that the vector prefixes share, and `has_rex`.
unfoldable pub set_rxb_fields : Internal → Bool → Bool → Bool → Internal
set_rxb_fields s r x b = record s {
  diagram = record (s.diagram) { has_rex = true; r = not r; x = not x; b = not b };
}

unfoldable pub set_vvvv_field : Internal → ℕ → Internal
set_vvvv_field s vvvv = record s { diagram = record (s.diagram) { vvvv = 15 - vvvv } }

unfoldable pub set_enc_field : Internal → ℕ → Internal
set_enc_field s enc = record s { diagram = record (s.diagram) { enc = enc } }
