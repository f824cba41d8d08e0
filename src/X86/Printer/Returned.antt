-- ===== src/X86/Printer/Returned.antt =====
-- What amed_x86_print_insn leaves in the buffer and returns.
use amed.Base.{
  ℕ, zero, suc, ◌-◌, ◌≡◌, sym, refl, ap, arith, Bool, true, false, Option, none, some, [], ◌∷◌,
  ◌==◌, if◌then◌else◌, length,
}
use amed.Base.Text.{Text, ◌>>=◌}
use amed.X86.State.{Insn}
use amed.X86.Printer.{
  Strings, Formatter, arguments_loop, operands_text, insn_text, lower_loop, tolower,
  amed_x86_print_insn,
}

-- No character of a text is the terminator.
abbrev pub has_no_nul : Text → Bool
has_no_nul [] = true
has_no_nul (c ∷ s) = if c == 0 then false else has_no_nul s

unfoldable pub lowered : Text → Text
lowered [] = []
lowered (c ∷ s) = tolower c ∷ lowered s

lower_loop_lem : (s : Text) → has_no_nul s ≡ true → lower_loop s ≡ (lowered s, length s)
unfolding lower_loop lowered
lower_loop_lem [] h = refl
lower_loop_lem (c ∷ s) h = ground (arith, h, lower_loop_lem s)

abbrev pub with_case : Formatter → Bool → Formatter
with_case formatter lower = record formatter { lower_case = lower }

arguments_loop-with_case :
    (strings : Strings) (formatter : Formatter) (insn : Insn) (b : Bool) (n i : ℕ)
    → arguments_loop strings (with_case formatter b) insn i n
      ≡ arguments_loop strings formatter insn i n
unfolding arguments_loop
arguments_loop-with_case strings formatter insn b zero i = refl
arguments_loop-with_case strings formatter insn b (suc n) i =
    rw (arguments_loop-with_case strings formatter insn b n (suc i)) refl

pub insn_text-with_case :
    (strings : Strings) (formatter : Formatter) (insn : Insn) (b : Bool)
    → insn_text strings (with_case formatter b) insn ≡ insn_text strings formatter insn
unfolding insn_text operands_text
insn_text-with_case strings formatter insn b =
    rw (arguments_loop-with_case strings formatter insn b (insn.argument_count) 0) refl

abbrev pub unlowered : Option Text → Option (Text × ℕ)
unlowered o = do text ← o; some (text, length text)

abbrev pub lowering : Option Text → Option (Text × ℕ)
lowering o = do text ← o; let (lower, moved) = lower_loop text; some (lower, length text - moved)

pub lowering_lem :
    (o : Option Text) (text : Text) (n : ℕ)
    → has_no_nul text ≡ true
    → unlowered o ≡ some (text, n)
    → (lowering o ≡ some (lowered text, 0)) × (n ≡ length text)
lowering_lem none text n h e = cc
lowering_lem (some t) text n h e =
    let same : t ≡ text = cc in
    let loop : lower_loop t ≡ (lowered text, length text) = rw same (lower_loop_lem text h) in
    (rw loop (rw same (ap (λ (k : ℕ). some (lowered text, k)) (omega arith))), cc)

-- Where the call without `lower_case` prints a text, which has no character 0, it returns the
-- length of the text; the call with `lower_case` then prints the text in lower case and returns 0.
pub amed_x86_print_insn-lower_case :
    (strings : Strings) (formatter : Formatter) (insn : Insn) (text : Text) (n : ℕ)
    → has_no_nul text ≡ true
    → amed_x86_print_insn strings (with_case formatter false) insn ≡ some (text, n)
    → (amed_x86_print_insn strings (with_case formatter true) insn ≡ some (lowered text, 0))
      × (n ≡ length text)
unfolding amed_x86_print_insn
amed_x86_print_insn-lower_case strings formatter insn text n h e =
    let same = insn_text-with_case strings formatter insn in
    rw (same true) (lowering_lem _ text n h (rw (sym (same false)) e))
