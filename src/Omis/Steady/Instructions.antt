-- ===== src/Omis/Steady/Instructions.antt =====
-- The methods of src/omis/model.cpp for blocks and instructions leave the scopes as they are.
use eokas_lang.Prelude.{Bool, Option, none, some, List, Bytes}
use eokas_lang.Omis.Bridge.{Bridge, UnaryIns, BinaryIns}
use eokas_lang.Omis.State.{OmisType, OmisValue}
use eokas_lang.Omis.Scopes.{get_value_symbol, get_type_symbol}
use eokas_lang.Omis.Instructions.{
  create_block, get_active_block, set_active_block, get_block_tail, is_terminator_ins, alloc, load,
  store, unary_same, unary_bool, arithmetic, comparison, bitwise, jump, jump_cond, phi, call, ret,
  get_ptr_val, get_ptr_ref,
}
use eokas_lang.Omis.Steady.Rules.{
  Run-refl, Steady, kept, Steady-pure, Steady-null, Steady-crash, Steady-deref, Steady-ask,
  Steady-get, Steady-if, Steady-bind,
}
use eokas_lang.Omis.Steady.Objects.{value_as-Steady, value_at-Steady, basic-Steady}

module _ ⦃B : Bridge⦄ where
  ruleset codes = (
    Steady-bind, Steady-pure, Steady-null, Steady-crash, Steady-deref, Steady-ask, Steady-if,
    Steady-get, value_as-Steady, value_at-Steady, basic-Steady,
  )

  pub get_type_symbol-Steady : (name : Bytes) (lookup : Bool) → Steady (get_type_symbol name lookup)
  unfolding get_type_symbol
  get_type_symbol-Steady name lookup = record { at = λ s. kept (Run-refl s) }

  pub get_value_symbol-Steady :
      (name : Bytes) (lookup : Bool) → Steady (get_value_symbol name lookup)
  unfolding get_value_symbol
  get_value_symbol-Steady name lookup = record { at = λ s. kept (Run-refl s) }

  pub create_block-Steady : (name : Bytes) → Steady (create_block name)
  unfolding create_block
  create_block-Steady name = search codes depth 10

  pub get_active_block-Steady : Steady get_active_block
  unfolding get_active_block
  get_active_block-Steady = search codes

  pub set_active_block-Steady : (block : OmisValue) → Steady (set_active_block block)
  unfolding set_active_block
  set_active_block-Steady block = search codes

  pub get_block_tail-Steady : (block : OmisValue) → Steady (get_block_tail block)
  unfolding get_block_tail
  get_block_tail-Steady block = search codes depth 8

  pub is_terminator_ins-Steady : (ins : Option OmisValue) → Steady (is_terminator_ins ins)
  unfolding is_terminator_ins
  is_terminator_ins-Steady (some ins) = Steady-ask _
  is_terminator_ins-Steady none = search codes depth 8

  pub alloc-Steady :
      (name : Bytes) (type : OmisType) (value : Option OmisValue) → Steady (alloc name type value)
  unfolding alloc
  alloc-Steady name type (some v) = search codes
  alloc-Steady name type none = search codes

  pub load-Steady : (ptr : OmisValue) → Steady (load ptr)
  unfolding load
  load-Steady ptr = search codes

  pub store-Steady : (ptr val : OmisValue) → Steady (store ptr val)
  unfolding store
  store-Steady ptr val = search codes

  pub unary_same-Steady : (ins : UnaryIns) (a : OmisValue) → Steady (unary_same ins a)
  unfolding unary_same
  unary_same-Steady ins a = search codes

  pub unary_bool-Steady : (ins : UnaryIns) (a : OmisValue) → Steady (unary_bool ins a)
  unfolding unary_bool
  unary_bool-Steady ins a = search codes

  pub arithmetic-Steady : (ins : BinaryIns) (a b : OmisValue) → Steady (arithmetic ins a b)
  unfolding arithmetic
  arithmetic-Steady ins a b = search codes

  pub comparison-Steady : (ins : BinaryIns) (a b : OmisValue) → Steady (comparison ins a b)
  unfolding comparison
  comparison-Steady ins a b = search codes

  pub bitwise-Steady : (ins : BinaryIns) (a b : OmisValue) → Steady (bitwise ins a b)
  unfolding bitwise
  bitwise-Steady ins a b = search codes

  pub jump-Steady : (pos : OmisValue) → Steady (jump pos)
  unfolding jump
  jump-Steady pos = search codes

  pub jump_cond-Steady : (cond t f : OmisValue) → Steady (jump_cond cond t f)
  unfolding jump_cond
  jump_cond-Steady cond t f = search codes

  pub phi-Steady :
      (type : OmisType) (incomings : List (OmisValue × OmisValue)) → Steady (phi type incomings)
  unfolding phi
  phi-Steady type incomings = search codes

  pub call-Steady : (func : OmisValue) (args : List OmisValue) → Steady (call func args)
  unfolding call
  call-Steady func args = search codes

  pub ret-Steady : (value : Option OmisValue) → Steady (ret value)
  unfolding ret
  ret-Steady value = search codes

  pub get_ptr_val-Steady : (ptr : OmisValue) → Steady (get_ptr_val ptr)
  unfolding get_ptr_val
  get_ptr_val-Steady ptr = search codes

  pub get_ptr_ref-Steady : (ptr : OmisValue) → Steady (get_ptr_ref ptr)
  unfolding get_ptr_ref
  get_ptr_ref-Steady ptr = search codes
