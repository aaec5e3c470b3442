-- ===== src/Omis/Core.antt =====
-- src/omis/x-module-core.cpp: the members of the core types, and `print`. `main` of omis_module_core_t is
-- commented out but for `return true`.
use eokas_lang.Prelude.{Bool, true, false, Option, none, some, List, [], ◌∷◌, Bytes, codes}
use eokas_lang.Omis.Bridge.{Bridge, BasicType}
use eokas_lang.Omis.State.{OmisType, OmisValue, M, ◌>>=◌, pure, deref}
use eokas_lang.Omis.Scopes.{get_type_symbol}
use eokas_lang.Omis.Objects.{basic, value_func}
use eokas_lang.Omis.Structs.{Member, add_member, kept_or, extends}

module _ ⦃B : Bridge⦄ where
  -- `module->get_type_symbol(name, true)->type`, with no test
  unfoldable pub named_type : Bytes → M OmisType
  named_type name = do symbol ← get_type_symbol name true; deref symbol

  -- A method with no arguments. All methods of the core types have this body.
  unfoldable pub method : Bytes → M OmisType → M OmisValue
  method name ret = do type ← ret; value_func name type [] false

  -- `this->add_member(name, <a method>)`, whose result is not looked at
  unfoldable pub add_method : Bytes → M OmisType → List Member → M (List Member)
  add_method name ret members = do
    value ← method name ret
    pure (kept_or members (add_member name none (some value) members))

  -- `this->add_member(name, module->get_type_symbol(type, true)->type)`
  unfoldable pub add_field : Bytes → Bytes → List Member → M (List Member)
  add_field name type_name members = do
    type ← named_type type_name
    pure (kept_or members (add_member name (some type) none members))

  -- omis_type_object_t::main, with typeinfo, string and hash
  unfoldable pub object_main : List Member → M (List Member)
  object_main members = do
    with_typeinfo ← add_method (codes "typeinfo") (named_type (codes "TypeInfo")) members
    with_string ← add_method (codes "string") (named_type (codes "String")) with_typeinfo
    add_method (codes "hash") (basic BasicType.i64) with_string

  -- The members of a type that is a struct, and none of another: a `dynamic_cast`.
  module _ (as_struct : OmisType → Option (List Member)) where
    -- omis_struct_t::extends, by the name of the base
    unfoldable pub extends_named : Bytes → List Member → M (Bool × List Member)
    extends_named base members = do
      symbol ← get_type_symbol base true
      elim symbol [
        | none ↦ pure (false, members)
        | some type ↦ elim (as_struct type) [
          | none ↦ pure (false, members)
          | some base_members ↦ pure (extends type base_members members)
        ]
      ]

    -- omis_type_typeinfo_t::main, with name, base, fields, methods and make
    unfoldable pub typeinfo_main : List Member → M (List Member)
    typeinfo_main members = do
      object ← object_main members
      (extended, all) ← extends_named (codes "Object") object
      with_name ← add_method (codes "name") (basic BasicType.i64) all
      with_base ← add_method (codes "base") (named_type (codes "string")) with_name
      with_fields ← add_method (codes "fields") (named_type (codes "string")) with_base
      with_methods ← add_method (codes "methods") (named_type (codes "string")) with_fields
      add_method (codes "make") (named_type (codes "string")) with_methods

    -- omis_type_string_t::main, with length, toUpper and toLower
    unfoldable pub string_main : List Member → M (List Member)
    string_main members = do
      object ← object_main members
      (extended, all) ← extends_named (codes "Object") object
      with_data ← add_field (codes "data") (codes "$cstr") all
      with_len ← add_field (codes "len") (codes "u64") with_data
      with_length ← add_method (codes "length") (basic BasicType.i64) with_len
      with_upper ← add_method (codes "toUpper") (named_type (codes "string")) with_length
      add_method (codes "toLower") (named_type (codes "string")) with_upper

  -- omis_module_core_t::define_func_print
  unfoldable pub define_func_print : M OmisValue
  define_func_print = do
    ret ← basic BasicType.i32
    text ← named_type (codes "String")
    value_func (codes "print") ret (text ∷ []) false
