-- ===== src/Coder/Loops.antt =====
-- A loop of src/omis/model.cpp demands what the code of each of its parts does.
use eokas_lang.Prelude.{Bool, true, none, some, codes}
use eokas_lang.Omis.Bridge.{Bridge}
use eokas_lang.Omis.State.{OmisValue, M}
use eokas_lang.Omis.Control.{loop_parts, stmt_loop}
use eokas_lang.Omis.Steady.Rules.{Steady, Steady-get}
use eokas_lang.Omis.Steady.Instructions.{create_block-Steady}
use eokas_lang.Coder.Parts.{parts, condition-Demands, branch_stmt-Demands}
use eokas_lang.Coder.Demands.{
  Ready-inside, Demands, Demands-first, Demands-later, Demands-push, Demands-modify,
}

module _ ⦃B : Bridge⦄ {in_loop : Bool} {P : Type 0} where
  module _ (i : M (Unit {0})) (c : M OmisValue) (st b : M (Unit {0})) (lc ls lb le : OmisValue)
      (hi : Steady i) (hc : Steady c) (hb : Steady b) where
    loop_parts-init : Demands in_loop P i → Demands in_loop P (loop_parts lc ls lb le i c st b)
    unfolding loop_parts
    loop_parts-init h = Demands-first i _ h

    loop_parts-cond : Demands in_loop P c → Demands in_loop P (loop_parts lc ls lb le i c st b)
    unfolding loop_parts
    loop_parts-cond h = search (parts, condition-Demands) depth 30

    loop_parts-body : Demands in_loop P b → Demands in_loop P (loop_parts lc ls lb le i c st b)
    unfolding loop_parts
    loop_parts-body h = search (parts, branch_stmt-Demands) depth 30

    loop_parts-step : Demands in_loop P st → Demands in_loop P (loop_parts lc ls lb le i c st b)
    unfolding loop_parts
    loop_parts-step h = search parts depth 30

module _ ⦃B : Bridge⦄ {in_loop : Bool} {P : Type 0} where
  stmt_loop-parts :
      (i : M (Unit {0})) (c : M OmisValue) (st b : M (Unit {0}))
      → ((lc ls lb le : OmisValue) → Demands true P (loop_parts lc ls lb le i c st b))
      → Demands in_loop P (stmt_loop i c st b)
  unfolding stmt_loop
  stmt_loop-parts i c st b h = Demands-push none _ (
      Demands-later _ _ (create_block-Steady (codes "loop.cond")) λ lc.
        Demands-later _ _ (create_block-Steady (codes "loop.step")) λ ls.
          Demands-later _ _ (create_block-Steady (codes "loop.body")) λ lb.
            Demands-later _ _ (create_block-Steady (codes "loop.end")) λ le.
              Demands-later _ _ Steady-get λ old.
                Demands-modify (λ s. record s { continue_point = some ls; break_point = some le }) _
                  (Ready-inside in_loop)
                  (Demands-first (loop_parts lc ls lb le i c st b) _ (h lc ls lb le)))

  module _ (i : M (Unit {0})) (c : M OmisValue) (st b : M (Unit {0})) (hi : Steady i)
      (hc : Steady c) (hb : Steady b) where
    pub stmt_loop-init : Demands true P i → Demands in_loop P (stmt_loop i c st b)
    stmt_loop-init h =
        stmt_loop-parts i c st b λ lc ls lb le. loop_parts-init i c st b lc ls lb le hi hc hb h

    pub stmt_loop-cond : Demands true P c → Demands in_loop P (stmt_loop i c st b)
    stmt_loop-cond h =
        stmt_loop-parts i c st b λ lc ls lb le. loop_parts-cond i c st b lc ls lb le hi hc hb h

    pub stmt_loop-body : Demands true P b → Demands in_loop P (stmt_loop i c st b)
    stmt_loop-body h =
        stmt_loop-parts i c st b λ lc ls lb le. loop_parts-body i c st b lc ls lb le hi hc hb h

    pub stmt_loop-step : Demands true P st → Demands in_loop P (stmt_loop i c st b)
    stmt_loop-step h =
        stmt_loop-parts i c st b λ lc ls lb le. loop_parts-step i c st b lc ls lb le hi hc hb h
