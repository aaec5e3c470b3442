-- ===== src/Llvm/Coding.antt =====
-- The code generator over the backend of src/omis/llvm/llvm.cxx: the places where it does not end well.
use eokas_lang.Prelude.{
  ◌≡◌, ◌≢◌, refl, Bool, true, false, List, Fault, null_deref, fault, if◌then◌else◌,
}
use eokas_lang.Parser.Monad.{Outcome, done, null, failed}
use eokas_lang.Ast.{Expr}
use eokas_lang.Omis.Bridge.{Bridge, Op}
use eokas_lang.Omis.State.{OmisType, OmisValue, OmisModule, M, ◌>>=◌, return_null, ask}
use eokas_lang.Omis.Instructions
use eokas_lang.Omis.Control.{expr_branch, stmt_ensure_tail_ret}
use eokas_lang.Coder.Encode.{encode_expr}
use eokas_lang.Llvm.Api.{Llvm}
use eokas_lang.Llvm.Values.{get_active_block, get_block_tail, is_terminator_ins}
use eokas_lang.Llvm.Refusing.{phi-fault}
use eokas_lang.Llvm.Giving.{eq_zero-false}
use eokas_lang.Llvm.Backend.{llvm_bridge}

-- The run does not end with a result.
data Undone {S A : Type 0} : Outcome S A → Type 0 where
  undone_null : {s : S} → Undone (null s)
  undone_failed : {e : Fault} → Undone (failed e)

Undone-done : {S A : Type 0} {a : A} {s : S} {r : Outcome S A} → Undone r → r ≢ done a s
Undone-done undone_null = λ e. cc
Undone-done undone_failed = λ e. cc

module _ ⦃B : Bridge⦄ where
  record Fails {A : Type 0} (m : M A) : Type 0 where
    at : (s : OmisModule) → Undone (m s)

  Fails-null : {A : Type 0} → Fails {A = A} return_null
  Fails-null = record { at = λ s. undone_null }

  -- What comes behind decides.
  Fails-bind : {A C : Type 0} (m : M A) (f : A → M C) → ((a : A) → Fails (f a)) → Fails (m >>= f)
  Fails-bind {A} {C} m f h = record { at = λ s. by_end (m s) }
    where
      by_end :
          (r : Outcome OmisModule A)
          → Undone {A = C} (elim r [ done a t ↦ f a t | null t ↦ null t | failed e ↦ failed e ])
      by_end (done a t) = (h a).at t
      by_end (null t) = undone_null
      by_end (failed e) = undone_failed

  Fails-first : {A C : Type 0} (m : M A) (f : A → M C) → Fails m → Fails (m >>= f)
  Fails-first {A} {C} m f h = record { at = λ s. by_end (h.at s) }
    where
      by_end :
          {r : Outcome OmisModule A}
          → Undone r
          → Undone {A = C} (elim r [ done a t ↦ f a t | null t ↦ null t | failed e ↦ failed e ])
      by_end undone_null = undone_null
      by_end undone_failed = undone_failed

  Fails-if : {A : Type 0} (b : Bool) (m n : M A) → Fails m → Fails n → Fails (if b then m else n)
  Fails-if true m n hm hn = hm
  Fails-if false m n hm hn = hn

  -- An operation of the backend that always faults.
  Fails-ask :
      {A : Type 0} (op : Op B.State A)
      → ((b : B.State) → (e : Fault) × (op b ≡ fault e))
      → Fails (ask op)
  unfolding ask
  Fails-ask op h = record { at = λ s. let (e, q) = h s.bridge in rw (ask, q) undone_failed }

module _ (L : Llvm) where
  phi-Fails :
      (type : OmisType) (incomings : List (OmisValue × OmisValue))
      → Fails ⦃B = llvm_bridge L⦄ (Instructions.phi ⦃B = llvm_bridge L⦄ type incomings)
  unfolding Instructions.phi
  phi-Fails type incomings =
      Fails-first ⦃B = llvm_bridge L⦄ _ _
        (Fails-ask ⦃B = llvm_bridge L⦄ _ λ s. phi-fault L type.handle _ s)

  expr_branch-Fails :
      (cond t f : M ⦃B = llvm_bridge L⦄ OmisValue)
      → Fails ⦃B = llvm_bridge L⦄ (expr_branch ⦃B = llvm_bridge L⦄ cond t f)
  unfolding expr_branch
  expr_branch-Fails cond t f = search (Fails-bind, Fails-if, Fails-null, phi-Fails) depth 20

  -- Over the LLVM backend no run of encode_expr on a trinary expression ends with a value, whatever its parts and
  -- the module are.
  pub trinary-not_done :
      (cond branch_true branch_false : Expr) (v : OmisValue) (s u : OmisModule ⦃B = llvm_bridge L⦄)
      → encode_expr ⦃B = llvm_bridge L⦄ (Expr.trinary cond branch_true branch_false) s ≢ done v u
  unfolding encode_expr
  trinary-not_done cond t f v s u = Undone-done ((expr_branch-Fails _ _ _).at s)

  -- Over the LLVM backend, where the active block is a block with no instruction, stmt_ensure_tail_ret dereferences a
  -- null pointer.
  pub stmt_ensure_tail_ret-crash :
      (func : OmisValue) (s : OmisModule ⦃B = llvm_bridge L⦄)
      → L.get_insert_block s.bridge ≢ 0
      → L.block_is_empty (L.get_insert_block s.bridge) s.bridge ≡ true
      → stmt_ensure_tail_ret ⦃B = llvm_bridge L⦄ func s ≡ failed null_deref
  unfolding stmt_ensure_tail_ret ask get_active_block get_block_tail is_terminator_ins
  stmt_ensure_tail_ret-crash func s n e = rw (◌>>=◌, eq_zero-false _ n, e) refl
