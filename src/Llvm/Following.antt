-- ===== src/Llvm/Following.antt =====
-- The loops of get_ptr_val and get_ptr_ref of src/omis/llvm/llvm.cxx end.
use eokas_lang.Prelude.{
  ℕ, zero, suc, ◌+◌, ◌<◌, ◌≡◌, refl, ap, ◌∙◌, Bool, true, false, arith, Bool-cases, inl, inr,
}
use eokas_lang.Omis.Bridge.{Handle}
use eokas_lang.Llvm.Api.{Ty, Instruction, Llvm}
use eokas_lang.Llvm.Monad.{◌>>=◌, pure, gets}
use eokas_lang.Llvm.Pointers.{
  depth, goes_on_val, goes_on_ref, follow_val, get_ptr_val, follow_ref, get_ptr_ref,
}
use eokas_lang.Llvm.Laws.{is_held, Gives, gives, IsLawful}
use eokas_lang.Llvm.Giving.{value_type-object, Gives-bind}

-- What a value of the type leads to: the pointers are taken off up to the last one before a function, a struct or
-- an array, or all of them.
abbrev pub value_under : Ty → Ty
value_under (Ty.pointer (Ty.function ret params varg)) = Ty.pointer (Ty.function ret params varg)
value_under (Ty.pointer (Ty.struct name)) = Ty.pointer (Ty.struct name)
value_under (Ty.pointer (Ty.array t n)) = Ty.pointer (Ty.array t n)
value_under (Ty.pointer t) = value_under t
value_under t = t

-- The pointers are taken off up to the last one.
abbrev pub last_pointer : Ty → Ty
last_pointer (Ty.pointer (Ty.pointer t)) = last_pointer (Ty.pointer t)
last_pointer t = t

-- It does not lead to `void`.
abbrev pub leads : Ty → Bool
leads (Ty.pointer t) = leads t
leads Ty.void = false
leads _ = true

-- A pointer that is followed: to a type that memory can hold unless it is `void`, which leads on to the same.
goes_on_val-pointer :
    (t : Ty)
    → goes_on_val t ≡ true
    → leads t ≡ true
    → (u : Ty) × ((t ≡ Ty.pointer u)
        × ((is_held u ≡ true) × ((leads u ≡ true) × (value_under t ≡ value_under u))))
goes_on_val-pointer (Ty.pointer Ty.void) q l = cc
goes_on_val-pointer (Ty.pointer (Ty.pointer t)) q l = (_, (refl, (refl, (l, refl))))
goes_on_val-pointer (Ty.pointer (Ty.array t n)) q l = cc
goes_on_val-pointer (Ty.pointer (Ty.function r p a)) q l = cc
goes_on_val-pointer (Ty.pointer (Ty.struct name)) q l = cc
goes_on_val-pointer (Ty.pointer _) q l = (_, (refl, (refl, (refl, refl))))
goes_on_val-pointer _ q l = cc

-- A type that is not followed is where it leads.
goes_on_val-end : (t : Ty) → goes_on_val t ≡ false → value_under t ≡ t
goes_on_val-end (Ty.pointer (Ty.array t n)) q = refl
goes_on_val-end (Ty.pointer (Ty.function r p a)) q = refl
goes_on_val-end (Ty.pointer (Ty.struct name)) q = refl
goes_on_val-end (Ty.pointer _) q = cc
goes_on_val-end _ q = refl

-- A pointer to a pointer, and any other type.
goes_on_ref-pointer :
    (t : Ty)
    → goes_on_ref t ≡ true
    → (u : Ty) × ((t ≡ Ty.pointer u) × ((is_held u ≡ true) × (last_pointer t ≡ last_pointer u)))
goes_on_ref-pointer (Ty.pointer (Ty.pointer t)) q = (_, (refl, (refl, refl)))
goes_on_ref-pointer (Ty.pointer _) q = cc
goes_on_ref-pointer _ q = cc

goes_on_ref-end : (t : Ty) → goes_on_ref t ≡ false → last_pointer t ≡ t
goes_on_ref-end (Ty.pointer (Ty.pointer t)) q = cc
goes_on_ref-end (Ty.pointer _) q = refl
goes_on_ref-end _ q = refl

module _ (L : Llvm) (law : IsLawful L) where
  -- A value that stays.
  stays :
      {t : Ty} {v : Handle} {s : L.State}
      → law.Live v s
      → L.get_type v s ≡ t
      → L.is_function v s ≡ false
      → Gives L law.Live t s (pure v s)
  stays l e n = gives l e n λ w lw. (lw, (refl, refl))

  follow_val-Gives :
      (fuel : ℕ) (t : Ty) (v : Handle) (s : L.State)
      → depth t < fuel
      → law.Live v s
      → L.get_type v s ≡ t
      → L.is_function v s ≡ false
      → leads t ≡ true
      → Gives L law.Live (value_under t) s (follow_val L fuel v s)
  unfolding follow_val
  follow_val-Gives zero t v s d l e n k = absurd (omega (arith, d))
  follow_val-Gives (suc fuel) t v s d l e n k = elim (Bool-cases (goes_on_val t)) [
    | inl q ↦
        let (u, (p, (h, (k', w)))) = goes_on_val-pointer t q k in
        let deep : depth t ≡ suc (depth u) = ap depth p in
        rw (value_type-object L v s (law.live-ne_zero v s l), e, ◌>>=◌, gets, q, n, w)
          (Gives-bind L law (L.build (Instruction.load v)) (follow_val L fuel) s
            (law.load v u s l (e ∙ p) h)
            λ x r lx ex nx kept. follow_val-Gives fuel u x r (omega (arith, d, deep)) lx ex nx k')
    | inr q ↦
        rw
          (value_type-object L v s (law.live-ne_zero v s l), e, ◌>>=◌, gets, q, goes_on_val-end t q)
          (stays l e n)
  ]

  follow_ref-Gives :
      (fuel : ℕ) (t : Ty) (v : Handle) (s : L.State)
      → depth t < fuel
      → law.Live v s
      → L.get_type v s ≡ t
      → L.is_function v s ≡ false
      → Gives L law.Live (last_pointer t) s (follow_ref L fuel v s)
  unfolding follow_ref
  follow_ref-Gives zero t v s d l e n = absurd (omega (arith, d))
  follow_ref-Gives (suc fuel) t v s d l e n = elim (Bool-cases (goes_on_ref t)) [
    | inl q ↦
        let (u, (p, (h, w))) = goes_on_ref-pointer t q in
        let deep : depth t ≡ suc (depth u) = ap depth p in
        rw (value_type-object L v s (law.live-ne_zero v s l), e, ◌>>=◌, q, w)
          (Gives-bind L law (L.build (Instruction.load v)) (follow_ref L fuel) s
            (law.load v u s l (e ∙ p) h)
            λ x r lx ex nx kept. follow_ref-Gives fuel u x r (omega (arith, d, deep)) lx ex nx)
    | inr q ↦
        rw (value_type-object L v s (law.live-ne_zero v s l), e, ◌>>=◌, q, goes_on_ref-end t q)
          (stays l e n)
  ]

  -- Over a lawful LLVM, for a live value that is no function and does not lead to `void`, both loops end: get_ptr_val
  -- gives a value of the type that the pointers lead to, stopping before functions, structs and arrays, and
  -- get_ptr_ref one of the type of the last pointer. The values before are left as they were.
  pub get_ptr_val-Gives :
      (v : Handle) (s : L.State)
      → law.Live v s
      → L.is_function v s ≡ false
      → leads (L.get_type v s) ≡ true
      → Gives L law.Live (value_under (L.get_type v s)) s (get_ptr_val L v s)
        × Gives L law.Live (last_pointer (L.get_type v s)) s (get_ptr_ref L v s)
  unfolding get_ptr_val get_ptr_ref
  get_ptr_val-Gives v s l n k =
      let t = L.get_type v s in
      let object = value_type-object L v s (law.live-ne_zero v s l) in
      (
        rw (◌>>=◌, object) (follow_val-Gives (depth t + 1) t v s (omega arith) l refl n k),
        rw (◌>>=◌, object) (follow_ref-Gives (depth t + 1) t v s (omega arith) l refl n),
      )
