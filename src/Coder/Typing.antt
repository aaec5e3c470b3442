-- ===== src/Coder/Typing.antt =====
-- The code of the numeric expressions of a program over a backend that types its values: encode_expr of
-- src/omis/x-module-coder.cpp.
use mathlib.Core.Path.{subst}
use eokas_lang.Prelude.{ℕ, ◌≡◌, ◌≢◌, refl, sym, ok, fault, Run}
use eokas_lang.Parser.Monad.{done}
use eokas_lang.Ast.{Expr}
use eokas_lang.Ast.Oper.{BinaryOper}
use eokas_lang.Omis.Bridge.{Bridge, Handle, Op, BasicType, BinaryIns}
use eokas_lang.Omis.State.{OmisValue, OmisModule, M, ◌>>=◌, nullable, ask}
use eokas_lang.Omis.Objects.{basic, value_as, value_at, value_integer, value_float}
use eokas_lang.Omis.Instructions.{value_of, arithmetic, get_ptr_val}
use eokas_lang.Omis.Control.{both}
use eokas_lang.Omis.Interned.{Interned}
use eokas_lang.Omis.Quiet.{Quiet, quiet, value_as-Quiet, value_at-Quiet, basic-Quiet}
use eokas_lang.Omis.Steady.Rules.{Steady, Kept-done}
use eokas_lang.Omis.Steady.Objects.{basic-Steady, value_as-Steady, value_at-Steady}
use eokas_lang.Coder.Nodes.{to_u64, encode_expr_int, encode_expr_binary, binary_code}
use eokas_lang.Coder.Encode.{encode_expr}
use eokas_lang.Coder.Numbers.{
  Number, join, IsArithmetic, is_add, is_sub, is_mul, is_div, is_mod, HasNumber, int_number,
  float_number, arithmetic_number, Gives, gives, IsTyping,
}

module _ ⦃B : Bridge⦄ (typing : IsTyping B) where
  -- The run ends with a value of the type, the backend keeps its values, and each handle has one object.
  pub data Yields (k : Number) (m : M OmisValue) (s : OmisModule) : Type 0 where
    yields :
        (v : OmisValue) (u : OmisModule)
        → m s ≡ done v u
        → typing.Has k v.handle u.bridge
        → typing.Kept s.bridge u.bridge
        → Interned u
        → Yields k m s

  Yields-bind :
      {k l : Number} (m : M OmisValue) (f : OmisValue → M OmisValue) (s : OmisModule)
      → Yields k m s
      → ((v : OmisValue) (u : OmisModule)
          → Interned u
          → typing.Has k v.handle u.bridge
          → typing.Kept s.bridge u.bridge
          → Yields l (f v) u)
      → Yields l (m >>= f) s
  Yields-bind m f s (yields v u e h k i) n = elim (n v u i h k) [
    | yields w x g h' k' i' ↦ yields w x (rw (◌>>=◌, e) g) h' (typing.kept_trans k k') i'
  ]

  -- Behind a part that leaves the backend as it is.
  Yields-Quiet :
      {A : Type 0} {P : A → Type 0} {k : Number} (m : M A) (f : A → M OmisValue) (s : OmisModule)
      → Steady m
      → Interned s
      → Quiet P m s
      → ((a : A) (t : OmisModule) → Interned t → Yields k (f a) t)
      → Yields k (m >>= f) s
  Yields-Quiet {k} m f s h i (quiet a t e b p) n =
      elim (n a t ((Kept-done (h.at s) e).grows.interned i)) [
        | yields w x g h' k' i' ↦
            yields w x (rw (◌>>=◌, e) g) h' (subst (λ c. typing.Kept c x.bridge) b k') i'
      ]

  -- A call of the backend, and the object of its handle.
  Yields-ask :
      {k : Number} (op : Op B.State Handle) (f : Handle → M OmisValue) (s : OmisModule)
      → Interned s
      → Gives (typing.Has k) typing.Kept s.bridge (op s.bridge)
      → ((h : Handle) → Steady (f h))
      → ((h : Handle) (t : OmisModule)
          → h ≢ 0
          → Interned t
          → Quiet (λ (v : OmisValue). v.handle ≡ h) (f h) t)
      → Yields k (ask op >>= f) s
  unfolding ask
  Yields-ask {k} op f s i g hf n = by_result (op s.bridge) refl g
    where
      by_result :
          (r : Run (Handle × B.State))
          → op s.bridge ≡ r
          → Gives (typing.Has k) typing.Kept s.bridge r
          → Yields k (ask op >>= f) s
      by_result (fault why) q x = elim x [ ]
      by_result (ok (h, b)) q (gives z has kept) = elim (n h (record s { bridge = b }) z i) [
        | quiet v u e d p ↦
            yields v u (rw (◌>>=◌, ask, q) e)
              (subst (λ c. typing.Has k c u.bridge) (sym p)
                (subst (λ c. typing.Has k h c) (sym d) has))
              (subst (λ c. typing.Kept s.bridge c) (sym d) kept)
              ((Kept-done ((hf h).at (record s { bridge = b })) e).grows.interned i)
      ]

  value_of-Yields :
      {k : Number} (op : Op B.State Handle) (s : OmisModule)
      → Interned s
      → Gives (typing.Has k) typing.Kept s.bridge (op s.bridge)
      → Yields k (value_of op) s
  value_of-Yields op s i g =
      Yields-ask op value_at s i g value_at-Steady λ h t z j. value_at-Quiet typing.is_quiet h z t j

  -- Behind a part with this end.
  Yields-done :
      {A : Type 0} {k : Number} (m : M A) (f : A → M OmisValue) (s t : OmisModule) (a : A)
      → m s ≡ done a t
      → typing.Kept s.bridge t.bridge
      → Yields k (f a) t
      → Yields k (m >>= f) s
  Yields-done m f s t a e k (yields v u g h k' i) =
      yields v u (rw (◌>>=◌, e) g) h (typing.kept_trans k k') i

  value_integer-Yields :
      (val : ℕ) (s : OmisModule) → Interned s → Yields Number.i32 (value_integer val 32) s
  unfolding value_integer
  value_integer-Yields val s i =
      Yields-Quiet (basic BasicType.i64) _ s (basic-Steady _) i
        (basic-Quiet typing.is_quiet BasicType.i64 s i)
        λ wide t j.
          Yields-Quiet (basic BasicType.i32) _ t (basic-Steady _) j
            (basic-Quiet typing.is_quiet BasicType.i32 t j)
            λ type u k.
              Yields-ask (B.value_integer val 32) (value_as type) u k (typing.integer val u.bridge)
                (value_as-Steady type) λ h x z l. value_as-Quiet type h x l

  value_float-Yields :
      (val : ℕ) (s : OmisModule) → Interned s → Yields Number.f64 (value_float val) s
  unfolding value_float
  value_float-Yields val s i =
      Yields-Quiet (basic BasicType.f64) _ s (basic-Steady _) i
        (basic-Quiet typing.is_quiet BasicType.f64 s i)
        λ type u k.
          Yields-ask (B.value_float val) (value_as type) u k (typing.float val u.bridge)
            (value_as-Steady type) λ h x z l. value_as-Quiet type h x l

  get_ptr_val-Yields :
      (k : Number) (v : OmisValue) (s : OmisModule)
      → Interned s
      → typing.Has k v.handle s.bridge
      → Yields k (get_ptr_val v) s
  unfolding get_ptr_val
  get_ptr_val-Yields k v s i h =
      value_of-Yields (B.get_ptr_val v.handle) s i (typing.get_ptr_val k v.handle s.bridge h)

  binary_code-Yields :
      {op : BinaryOper} {ins : BinaryIns} (k l : Number) (v w : OmisValue) (s : OmisModule)
      → IsArithmetic op ins
      → Interned s
      → typing.Has k v.handle s.bridge
      → typing.Has l w.handle s.bridge
      → Yields (join k l) (binary_code op v w) s
  unfolding binary_code arithmetic
  binary_code-Yields k l v w s is_add i hv hw =
      value_of-Yields _ s i (typing.binary k l v.handle w.handle s.bridge is_add hv hw)
  binary_code-Yields k l v w s is_sub i hv hw =
      value_of-Yields _ s i (typing.binary k l v.handle w.handle s.bridge is_sub hv hw)
  binary_code-Yields k l v w s is_mul i hv hw =
      value_of-Yields _ s i (typing.binary k l v.handle w.handle s.bridge is_mul hv hw)
  binary_code-Yields k l v w s is_div i hv hw =
      value_of-Yields _ s i (typing.binary k l v.handle w.handle s.bridge is_div hv hw)
  binary_code-Yields k l v w s is_mod i hv hw =
      value_of-Yields _ s i (typing.binary k l v.handle w.handle s.bridge is_mod hv hw)

  encode_expr_binary-Yields :
      {op : BinaryOper} {ins : BinaryIns} (k l : Number) (left right : M OmisValue) (s : OmisModule)
      → IsArithmetic op ins
      → Interned s
      → Yields k left s
      → ((t : OmisModule) → Interned t → Yields l right t)
      → Yields (join k l) (encode_expr_binary op left right) s
  unfolding encode_expr_binary both
  encode_expr_binary-Yields {op} k l left right s o i (yields v u e hv kv iu) n = elim (n u iu) [
    | yields w x g hw kw ix ↦
        Yields-done (both left right) _ s x (v, w) (rw (both, nullable, ◌>>=◌, e, g) refl)
          (typing.kept_trans kv kw)
          (Yields-bind (get_ptr_val v) _ x (get_ptr_val-Yields k v x ix (typing.kept_has kw hv))
            λ lhs y iy hl kl.
              Yields-bind (get_ptr_val w) _ y (get_ptr_val-Yields l w y iy (typing.kept_has kl hw))
                λ rhs z iz hr kr. binary_code-Yields k l lhs rhs z o iz (typing.kept_has kr hl) hr)
  ]

  -- Over a backend that types its values, and in a module in which each handle has one object, every expression of
  -- integer literals of at most 32 bits, floating-point literals and arithmetic is encoded, to a value of the type
  -- that arithmetic has: `i32` for integers alone, and else `f64`.
  pub encode_expr-Yields :
      (e : Expr) (k : Number) (s : OmisModule)
      → HasNumber e k
      → Interned s
      → Yields k (encode_expr e) s
  unfolding encode_expr encode_expr_int
  encode_expr-Yields e k s (int_number {z} q) i = rw q (value_integer-Yields (to_u64 z) s i)
  encode_expr-Yields e k s (float_number {f}) i = value_float-Yields f s i
  encode_expr-Yields e k s (arithmetic_number {a} {b} {k = left} {l = right} o ha hb) i =
      encode_expr_binary-Yields left right (encode_expr a) (encode_expr b) s o i
        (encode_expr-Yields a left s ha i) λ t j. encode_expr-Yields b right t hb j
