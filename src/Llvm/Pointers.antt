-- ===== src/Llvm/Pointers.antt =====
-- src/omis/llvm/llvm.cxx: the loops that follow a pointer to a value or to the last pointer.
use eokas_lang.Prelude.{
  ℕ, zero, suc, ◌+◌, Bool, false, ◌||◌, ◌&&◌, fault, out_of_fuel, if◌then◌else◌,
}
use mathlib.Core.Bool.{not}
use eokas_lang.Omis.Bridge.{Handle, Op}
use eokas_lang.Llvm.Api.{Ty, Instruction, Llvm}
use eokas_lang.Llvm.Monad.{◌>>=◌, pure, gets, value_type}
use eokas_lang.Llvm.Types.{is_function_ty, is_struct_ty, is_array_ty, is_pointer_ty}

-- The pointers on the way to what a pointer leads to: the bound of the loops.
abbrev pub depth : Ty → ℕ
depth (Ty.pointer t) = suc (depth t)
depth _ = 0

-- A pointer, but none to a function, a struct or an array.
abbrev pub goes_on_val : Ty → Bool
goes_on_val (Ty.pointer t) = not (is_function_ty t || is_struct_ty t || is_array_ty t)
goes_on_val _ = false

-- A pointer to a pointer.
abbrev pub goes_on_ref : Ty → Bool
goes_on_ref (Ty.pointer t) = is_pointer_ty t
goes_on_ref _ = false

module _ (L : Llvm) where
  -- The loop of get_ptr_val: a function is not followed.
  unfoldable pub follow_val : ℕ → Handle → Op L.State Handle
  follow_val zero v s = fault out_of_fuel
  follow_val (suc fuel) v s =
      (do
        type ← value_type L v
        func ← gets (L.is_function v)
        if goes_on_val type && not func
            then (do w ← L.build (Instruction.load v); follow_val fuel w)
            else pure v)
        s

  -- llvm_bridge_t::get_ptr_val
  unfoldable pub get_ptr_val : Handle → Op L.State Handle
  unfolding follow_val
  get_ptr_val ptr = do type ← value_type L ptr; follow_val (depth type + 1) ptr

  -- The loop of get_ptr_ref
  unfoldable pub follow_ref : ℕ → Handle → Op L.State Handle
  follow_ref zero v s = fault out_of_fuel
  follow_ref (suc fuel) v s =
      (do
        type ← value_type L v
        if goes_on_ref type
            then (do w ← L.build (Instruction.load v); follow_ref fuel w)
            else pure v)
        s

  -- llvm_bridge_t::get_ptr_ref
  unfoldable pub get_ptr_ref : Handle → Op L.State Handle
  unfolding follow_ref
  get_ptr_ref ptr = do type ← value_type L ptr; follow_ref (depth type + 1) ptr
