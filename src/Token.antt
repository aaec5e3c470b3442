-- ===== src/Token.antt =====
-- src/app/scanner.h, src/app/scanner.cxx: `token_t`, its type enumeration and its name table.
-- `module`, `if`, `else`, `true`, `false` and `mod` are spelled with a suffix here.
pub mod Infer
mod Tests
use eokas_lang.Prelude.{
  ℕ, Bool, false, Option, none, some, List, [], ◌∷◌, ◌==◌, Bytes, bytes_eq, codes, if◌then◌else◌,
}

-- enum token_type
pub data TokenType : Type 0 where
  var val make : TokenType
  module_kw import export public private : TokenType
  func proc struct enum : TokenType
  if_kw else_kw loop break continue return true_kw false_kw : TokenType
  comma semicolon colon question at pound dollar : TokenType
  add sub mul div mod_op xor flip : TokenType
  lrb rrb lsb rsb lcb rcb : TokenType
  and and2 or or2 : TokenType
  assign eq not ne gt ge lt le : TokenType
  shift_l shift_r : TokenType
  dot dot2 dot3 : TokenType
  int_b int_x int_d float string id eos : TokenType
  count unknown : TokenType

-- The enumerators before COUNT, in the order of their values.
abbrev pub token_types : List TokenType
token_types =
    var ∷ val ∷ make ∷ module_kw ∷ import ∷ export ∷ public ∷ private ∷ func ∷ proc ∷ struct ∷ enum
    ∷ if_kw ∷ else_kw ∷ loop ∷ break ∷ continue ∷ return ∷ true_kw ∷ false_kw ∷ comma ∷ semicolon
    ∷ colon ∷ question ∷ at ∷ pound ∷ dollar ∷ add ∷ sub ∷ mul ∷ div ∷ mod_op ∷ xor ∷ flip ∷ lrb
    ∷ rrb ∷ lsb ∷ rsb ∷ lcb ∷ rcb ∷ and ∷ and2 ∷ or ∷ or2 ∷ assign ∷ eq ∷ not ∷ ne ∷ gt ∷ ge ∷ lt
    ∷ le ∷ shift_l ∷ shift_r ∷ dot ∷ dot2 ∷ dot3 ∷ int_b ∷ int_x ∷ int_d ∷ float ∷ string ∷ id ∷ eos
    ∷ []

-- The value of an enumerator.
abbrev pub to_int : TokenType → ℕ
to_int var = 0
to_int val = 1
to_int make = 2
to_int module_kw = 3
to_int import = 4
to_int export = 5
to_int public = 6
to_int private = 7
to_int func = 8
to_int proc = 9
to_int struct = 10
to_int enum = 11
to_int if_kw = 12
to_int else_kw = 13
to_int loop = 14
to_int break = 15
to_int continue = 16
to_int return = 17
to_int true_kw = 18
to_int false_kw = 19
to_int comma = 20
to_int semicolon = 21
to_int colon = 22
to_int question = 23
to_int at = 24
to_int pound = 25
to_int dollar = 26
to_int add = 27
to_int sub = 28
to_int mul = 29
to_int div = 30
to_int mod_op = 31
to_int xor = 32
to_int flip = 33
to_int lrb = 34
to_int rrb = 35
to_int lsb = 36
to_int rsb = 37
to_int lcb = 38
to_int rcb = 39
to_int and = 40
to_int and2 = 41
to_int or = 42
to_int or2 = 43
to_int assign = 44
to_int eq = 45
to_int not = 46
to_int ne = 47
to_int gt = 48
to_int ge = 49
to_int lt = 50
to_int le = 51
to_int shift_l = 52
to_int shift_r = 53
to_int dot = 54
to_int dot2 = 55
to_int dot3 = 56
to_int int_b = 57
to_int int_x = 58
to_int int_d = 59
to_int float = 60
to_int string = 61
to_int id = 62
to_int eos = 63
to_int count = 64
to_int unknown = 65

-- token_t::names and token_t::name; `none` is the null pointer.
abbrev pub name : TokenType → Option Bytes
name var = some (codes "var")
name val = some (codes "val")
name make = some (codes "make")
name module_kw = some (codes "module")
name import = some (codes "import")
name export = some (codes "export")
name public = some (codes "public")
name private = some (codes "private")
name func = some (codes "func")
name proc = some (codes "proc")
name struct = some (codes "struct")
name enum = some (codes "enum")
name if_kw = some (codes "if")
name else_kw = some (codes "else")
name loop = some (codes "loop")
name break = some (codes "break")
name continue = some (codes "continue")
name return = some (codes "return")
name true_kw = some (codes "true")
name false_kw = some (codes "false")
name comma = some (codes ",")
name semicolon = some (codes ";")
name colon = some (codes ":")
name question = some (codes "?")
name at = some (codes "@")
name pound = some (codes "#")
name dollar = some (codes "$")
name add = some (codes "+")
name sub = some (codes "-")
name mul = some (codes "*")
name div = some (codes "/")
name mod_op = some (codes "%")
name xor = some (codes "^")
name flip = some (codes "~")
name lrb = some (codes "(")
name rrb = some (codes ")")
name lsb = some (codes "[")
name rsb = some (codes "]")
name lcb = some (codes "{")
name rcb = some (codes "}")
name and = some (codes "&")
name and2 = some (codes "&&")
name or = some (codes "|")
name or2 = some (codes "||")
name assign = some (codes "=")
name eq = some (codes "==")
name not = some (codes "!")
name ne = some (codes "!=")
name gt = some (codes ">")
name ge = some (codes ">=")
name lt = some (codes "<")
name le = some (codes "<=")
name shift_l = some (codes ">|")
name shift_r = some (codes "|<")
name dot = some (codes ".")
name dot2 = some (codes "..")
name dot3 = some (codes "...")
name int_b = some (codes "<b-int>")
name int_x = some (codes "<x-int>")
name int_d = some (codes "<d-int>")
name float = some (codes "<float>")
name string = some (codes "<string>")
name id = some (codes "<identifier>")
name eos = some (codes "<eos>")
name count = none
name unknown = none

-- `==` of two enumerators.
abbrev pub same_type : TokenType → TokenType → Bool
same_type a b = to_int a == to_int b

pub record Token : Type 0 where
  pub type : TokenType
  pub value : Bytes

-- token_t::token_t, token_t::clear
abbrev pub empty_token : Token
empty_token = record { type = unknown; value = [] }

abbrev pub is_named : Bytes → TokenType → Bool
is_named value t = elim (name t) [ none ↦ false | some n ↦ bytes_eq value n ]

-- The loop of `infer`: the first enumerator whose name is the text.
unfoldable pub find_type : Bytes → List TokenType → Option TokenType
find_type value [] = none
find_type value (t ∷ ts) = if is_named value t then some t else find_type value ts

-- token_t::infer
unfoldable pub infer : TokenType → Token → Token
unfolding find_type
infer default_type token = elim (find_type token.value token_types) [
  | some t ↦ record token { type = t }
  | none ↦ record token { type = default_type }
]
