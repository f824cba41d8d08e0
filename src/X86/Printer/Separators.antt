-- ===== src/X86/Printer/Separators.antt =====
-- The separators of source/x86/printer.c, against the list of the operands' texts.
use amed.Base.{
  ℕ, zero, suc, ◌≡◌, refl, arith, Bool, true, false, Option, none, some, List, [], ◌∷◌, ◌++◌, ◌==◌,
  if◌then◌else◌,
}
use amed.Base.Text.{Text, ◌>>=◌}
use amed.X86.State.{Insn}
use amed.X86.Printer.{Strings, Formatter, separator, print_argument, arguments_loop, operands_text}

-- The texts of the `n` arguments from `i` on that are not suppressed.
unfoldable pub operands : Strings → Insn → ℕ → ℕ → Option (List Text)
operands strings insn i zero = some []
operands strings insn i (suc n) =
    let rest = operands strings insn (suc i) n in
    if (insn.arguments i).is_suppressed
    then rest
    else do text ← print_argument strings insn (insn.arguments i); texts ← rest; some (text ∷ texts)

-- A separator before every text, and one between every two.
abbrev pub each_after : Text → List Text → Text
each_after sep [] = []
each_after sep (t ∷ ts) = sep ++ t ++ each_after sep ts

abbrev pub join : Text → List Text → Text
join sep [] = []
join sep (t ∷ ts) = t ++ each_after sep ts

abbrev pub comma : Formatter → Text
comma formatter = b',' ∷ separator (formatter.use_tab_between_arguments) ∷ []

pub suc_not_zero : (i : ℕ) → (suc i == 0) ≡ false
suc_not_zero i = ground arith

-- One turn of either loop, after what the turns that follow it return.
abbrev written : Text → Bool → Option Text → Option Text → Option Text
written sep b o rest = if b then rest else do text ← o; texts ← rest; some (sep ++ text ++ texts)

abbrev listed : Bool → Option Text → Option (List Text) → Option (List Text)
listed b o rest = if b then rest else do text ← o; texts ← rest; some (text ∷ texts)

pub written-listed :
    (sep : Text) (b : Bool) (o : Option Text) (r : Option (List Text))
    → written sep b o (do texts ← r; some (each_after sep texts))
      ≡ (do texts ← listed b o r; some (each_after sep texts))
written-listed sep true o r = refl
written-listed sep false none r = refl
written-listed sep false (some t) none = refl
written-listed sep false (some t) (some ts) = refl

pub written-listed_first :
    (sep : Text) (b : Bool) (o : Option Text) (r : Option (List Text))
    → written [] b o (do texts ← r; some (each_after sep texts))
      ≡ (do texts ← listed b o r; some (if b then each_after sep texts else join sep texts))
written-listed_first sep true o r = refl
written-listed_first sep false none r = refl
written-listed_first sep false (some t) none = refl
written-listed_first sep false (some t) (some ts) = refl

bind_map :
    (o : Option Text) (r : Option (List Text)) (c : ℕ) (f : List Text → Text)
    → o ≡ (do texts ← r; some (f texts))
    → (do texts ← o; some (c ∷ texts)) ≡ (do texts ← r; some (c ∷ f texts))
bind_map o none c f h = rw h refl
bind_map o (some ts) c f h = rw h refl

module _ (strings : Strings) (formatter : Formatter) (insn : Insn) where
  arguments_loop-each_after :
      (n i : ℕ)
      → arguments_loop strings formatter insn (suc i) n
        ≡ (do texts ← operands strings insn (suc i) n; some (each_after (comma formatter) texts))
  unfolding arguments_loop operands
  arguments_loop-each_after zero i = refl
  arguments_loop-each_after (suc n) i =
      rw (suc_not_zero i, arguments_loop-each_after n (suc i))
        (written-listed (comma formatter) ((insn.arguments (suc i)).is_suppressed)
          (print_argument strings insn (insn.arguments (suc i)))
          (operands strings insn (suc (suc i)) n))

  arguments_loop-join :
      (n : ℕ)
      → arguments_loop strings formatter insn 0 (suc n) ≡ (do
        texts ← operands strings insn 0 (suc n)
        some (
            if (insn.arguments 0).is_suppressed
            then each_after (comma formatter) texts
            else join (comma formatter) texts))
  unfolding arguments_loop operands
  arguments_loop-join n = rw (arguments_loop-each_after n 0) (
      written-listed_first (comma formatter) ((insn.arguments 0).is_suppressed)
        (print_argument strings insn (insn.arguments 0)) (operands strings insn 1 n))

  counted :
      (n : ℕ)
      → (if n == 0 then some [] else do
        texts ← arguments_loop strings formatter insn 0 n
        some (separator (formatter.use_tab_after_mnem) ∷ texts))
        ≡ (if n == 0 then some [] else do
          texts ← operands strings insn 0 n
          some (
              separator (formatter.use_tab_after_mnem)
              ∷ (if (insn.arguments 0).is_suppressed
                  then each_after (comma formatter) texts
                  else join (comma formatter) texts)))
  counted zero = refl
  counted (suc n) = rw (suc_not_zero n) (
      bind_map _ (operands strings insn 0 (suc n)) (separator (formatter.use_tab_after_mnem)) _
        (arguments_loop-join n))

  -- Without arguments nothing follows the mnemonic. Otherwise white space follows it, and then the
  -- texts of the arguments that are not suppressed: joined by separators where the first argument
  -- is not suppressed, and with a separator before each of them where it is. A text that is refused
  -- makes the whole call refused.
  pub operands_text_lem : operands_text strings formatter insn ≡ (
      if insn.argument_count == 0 then some [] else do
        texts ← operands strings insn 0 (insn.argument_count)
        some (
            separator (formatter.use_tab_after_mnem)
            ∷ (if (insn.arguments 0).is_suppressed
                then each_after (comma formatter) texts
                else join (comma formatter) texts)))
  unfolding operands_text
  operands_text_lem = counted (insn.argument_count)
