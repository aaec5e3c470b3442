-- ===== src/Omis/Instructions.antt =====
-- src/omis/model.cpp: the blocks and the instructions of a module.
use eokas_lang.Prelude.{
  ℕ, Bool, true, false, Option, none, some, List, [], ◌∷◌, ◌==◌, Bytes, if◌then◌else◌,
}
use eokas_lang.Omis.Bridge.{Bridge, Handle, Op, BasicType, UnaryIns, BinaryIns}
use eokas_lang.Omis.State.{OmisType, OmisValue, M, ◌>>=◌, pure, return_null, deref, get_state, ask}
use eokas_lang.Omis.Objects.{value_as, value_at, basic}
use eokas_lang.Omis.Scopes.{get_value_symbol}

abbrev value_handles : List OmisValue → List Handle
value_handles [] = []
value_handles (v ∷ vs) = v.handle ∷ value_handles vs

-- `insert` on a map from keys that are compared by `key`: a key that is there keeps its entry.
abbrev insert_first : {A : Type 0} → (A → ℕ) → A → List A → List A
insert_first key a [] = a ∷ []
insert_first key a (b ∷ rest) = if key b == key a then b ∷ rest else b ∷ insert_first key a rest

-- A map of incoming values to their blocks, keyed by the address of the value.
abbrev pub incoming :
    OmisValue → OmisValue → List (OmisValue × OmisValue) → List (OmisValue × OmisValue)
incoming v block = insert_first (λ e. e.0.id) (v, block)

abbrev incoming_handles :
    List (OmisValue × OmisValue) → List (Handle × Handle) → List (Handle × Handle)
incoming_handles [] acc = acc
incoming_handles ((v, block) ∷ rest) acc =
    incoming_handles rest (insert_first (λ e. e.0) (v.handle, block.handle) acc)

module _ ⦃B : Bridge⦄ where
  abbrev pub value_of : Op B.State Handle → M OmisValue
  value_of op = do h ← ask op; value_at h

  abbrev value_of_type : OmisType → Op B.State Handle → M OmisValue
  value_of_type type op = do h ← ask op; value_as type h

  -- `this->value(this->type_...(), ret)`
  abbrev value_of_basic : BasicType → Op B.State Handle → M OmisValue
  value_of_basic b op = do h ← ask op; type ← basic b; value_as type h

  -- omis_module_t::create_block
  unfoldable pub create_block : Bytes → M OmisValue
  create_block name = do
    s ← get_state
    func ← deref s.scope.func
    value_of_basic BasicType.void (B.create_block func.handle name)

  -- omis_module_t::get_active_block
  unfoldable pub get_active_block : M OmisValue
  get_active_block = value_of_basic BasicType.void B.get_active_block

  -- omis_module_t::set_active_block
  unfoldable pub set_active_block : OmisValue → M (Unit {0})
  set_active_block block = ask (B.set_active_block block.handle)

  -- omis_module_t::get_block_tail
  unfoldable pub get_block_tail : OmisValue → M (Option OmisValue)
  get_block_tail block = do
    h ← ask (B.get_block_tail block.handle)
    if h == 0 then pure none else (do v ← value_at h; pure (some v))

  -- omis_module_t::is_terminator_ins
  unfoldable pub is_terminator_ins : Option OmisValue → M Bool
  is_terminator_ins (some ins) = ask (B.is_terminator_ins ins.handle)
  is_terminator_ins none = do
    block ← ask B.get_active_block
    tail ← ask (B.get_block_tail block)
    if tail == 0 then pure false else ask (B.is_terminator_ins tail)

  -- omis_module_t::alloc
  unfoldable pub alloc : Bytes → OmisType → Option OmisValue → M OmisValue
  alloc name type value = do
    ptr ← ask (B.alloc type.handle name)
    elim value [ some v ↦ do ret ← ask (B.store ptr v.handle); value_at ptr | none ↦ value_at ptr ]

  -- omis_module_t::load, omis_module_t::store
  unfoldable pub load : OmisValue → M OmisValue
  load ptr = value_of (B.load ptr.handle)

  unfoldable pub store : OmisValue → OmisValue → M OmisValue
  store ptr val = value_of_basic BasicType.void (B.store ptr.handle val.handle)

  -- neg and b_flip: a value of the operand's type
  unfoldable pub unary_same : UnaryIns → OmisValue → M OmisValue
  unary_same ins a = value_of_type a.type (B.unary ins a.handle)

  -- l_not
  unfoldable pub unary_bool : UnaryIns → OmisValue → M OmisValue
  unary_bool ins a = value_of_basic BasicType.bool (B.unary ins a.handle)

  -- add, sub, mul, div and mod: a value of the type that the bridge gives it
  unfoldable pub arithmetic : BinaryIns → OmisValue → OmisValue → M OmisValue
  arithmetic ins a b = value_of (B.binary ins a.handle b.handle)

  -- eq, ne, gt, ge, lt, le, l_and and l_or: a bool
  unfoldable pub comparison : BinaryIns → OmisValue → OmisValue → M OmisValue
  comparison ins a b = value_of_basic BasicType.bool (B.binary ins a.handle b.handle)

  -- b_and, b_or, b_xor, b_shl and b_shr: a value of the left operand's type
  unfoldable pub bitwise : BinaryIns → OmisValue → OmisValue → M OmisValue
  bitwise ins a b = value_of_type a.type (B.binary ins a.handle b.handle)

  -- omis_module_t::jump, omis_module_t::jump_cond
  unfoldable pub jump : OmisValue → M OmisValue
  jump pos = value_of (B.jump pos.handle)

  unfoldable pub jump_cond : OmisValue → OmisValue → OmisValue → M OmisValue
  jump_cond cond branch_true branch_false =
      value_of (B.jump_cond cond.handle branch_true.handle branch_false.handle)

  -- omis_module_t::phi
  unfoldable pub phi : OmisType → List (OmisValue × OmisValue) → M OmisValue
  phi type incomings = value_of (B.phi type.handle (incoming_handles incomings []))

  -- omis_module_t::call
  unfoldable pub call : OmisValue → List OmisValue → M OmisValue
  call func args = value_of (B.call func.handle (value_handles args))

  -- omis_module_t::call, by name
  unfoldable pub call_named : Bytes → List OmisValue → M OmisValue
  call_named name args = do
    symbol ← get_value_symbol name true
    elim symbol [ some v ↦ call v.value args | none ↦ return_null ]

  -- omis_module_t::ret
  unfoldable pub ret : Option OmisValue → M OmisValue
  ret value = value_of (B.ret (elim value [ some v ↦ some v.handle | none ↦ none ]))

  -- omis_module_t::bitcast
  unfoldable pub bitcast : OmisValue → OmisType → M OmisValue
  bitcast v type = value_of (B.bitcast v.handle type.handle)

  -- omis_module_t::get_ptr_val, omis_module_t::get_ptr_ref
  unfoldable pub get_ptr_val : OmisValue → M OmisValue
  get_ptr_val ptr = value_of (B.get_ptr_val ptr.handle)

  unfoldable pub get_ptr_ref : OmisValue → M OmisValue
  get_ptr_ref ptr = value_of (B.get_ptr_ref ptr.handle)
