-- ===== src/Dispatch/Decoded.antt =====
-- What amed_decode_insn of source/decoder.c does to its context, whatever the architecture.
use amed.Base.{◌<◌, ◌≡◌, Bool, true, false, not, Option, some, ◌⊎◌}
use amed.Aarch32.Frame.Nodes.{IsValid}
use amed.Aarch32.Frame.Entry.{is_arm_mode}
use amed.Dispatch.{Architecture, Context, Insn, Build, aarch32_mode}

-- A call that may begin an IT block.
abbrev pub is_thumb_call : Context → Bool
is_thumb_call context = elim (context.architecture) [
  | Architecture.aarch32 ↦ not (is_arm_mode (aarch32_mode (context.machine_mode)))
  | _ ↦ false
]

-- The architecture's decoder is there.
abbrev pub is_built : Build → Architecture → Bool
is_built build Architecture.none = false
is_built build Architecture.x86 = build.has_x86
is_built build Architecture.aarch32 = build.has_aarch32
is_built build Architecture.aarch64 = build.has_aarch64

-- What a call leaves of a context with a valid IT block.
pub record Keeps (build : Build) (context : Context) (insn : Insn) (context' : Context)
    (insn' : Insn) (ok : Bool) : Type 0 where
  pub still_valid : IsValid context'.itblock
  pub only_itblock : context' ≡ record context { itblock = context'.itblock }
  pub thumb_block : (is_thumb_call context ≡ true) ⊎ (context' ≡ context)
  pub when_built :
      (is_built build context.architecture ≡ true)
      ⊎ ((context' ≡ context) × (insn' ≡ insn) × (ok ≡ false))
  pub some_bytes : (ok ≡ false) ⊎ (0 < context.length)

-- What x86 and AArch64 leave.
abbrev same_left : Context → {A : Type 0} → (A → Insn) → A × Bool → Option (Context × Insn × Bool)
same_left context f (s, ok) = some (context, f s, ok)
