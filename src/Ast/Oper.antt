-- ===== src/Ast/Oper.antt =====
-- src/ast/header.h: ast_binary_oper_t and ast_unary_oper_t, with the values of the enumerators.
use eokas_lang.Prelude.{ℕ}

pub data BinaryOper : Type 0 where
  or and : BinaryOper
  eq ne le ge lt gt : BinaryOper
  add sub : BinaryOper
  mul div mod_op : BinaryOper
  bit_and bit_or bit_xor shift_l shift_r : BinaryOper
  unknown : BinaryOper

abbrev pub max_level : ℕ
max_level = 800

-- The value of an enumerator.
abbrev pub to_int : BinaryOper → ℕ
to_int or = 100
to_int and = 200
to_int eq = 300
to_int ne = 301
to_int le = 302
to_int ge = 303
to_int lt = 304
to_int gt = 305
to_int add = 400
to_int sub = 401
to_int mul = 500
to_int div = 501
to_int mod_op = 502
to_int bit_and = 600
to_int bit_or = 601
to_int bit_xor = 602
to_int shift_l = 603
to_int shift_r = 604
to_int unknown = 0x7FFFFFFF

pub data UnaryOper : Type 0 where
  pos neg flip size_of type_of not unknown : UnaryOper
