-- ===== src/App/Compiled.antt =====
-- Which sources eokas_main of src/app/app.cxx runs.
use eokas_lang.Prelude.{
  Run-cases, ◌≡◌, refl, sym, ◌∙◌, ap, Bool, false, none, some, [], ◌∷◌, ◌++◌, Bytes, Run, ok, fault,
  Option-cases, Bool-cases, inl, inr, if◌then◌else◌,
}
use eokas_lang.Ast.{Module}
use eokas_lang.Parser.Source.{Conversions}
use eokas_lang.Parser.Monad.{Parser, Outcome, done, null, failed}
use eokas_lang.Parser.Imports.{parse-imports}
use eokas_lang.Scanner.State.{ready}
use eokas_lang.Frontend.{scanner_source, parse_ready, parse_source}
use eokas_lang.Omis.Bridge.{Bridge}
use eokas_lang.Omis.State.{OmisModule}
use eokas_lang.Omis.Scopes.{get}
use eokas_lang.Omis.Interned.{Interned}
use eokas_lang.Coder.Encodable.{AllEncodable}
use eokas_lang.Engine.{Engine, get_module, encode, ran_on, jit, aot}
use eokas_lang.Engine.Loading.{encode-code, encode-once, encode-Loaded, Loaded-done}
use eokas_lang.App.{Request, ran, no_source, no_output, at_end, run_code, code_tree, eokas_main}

module _ ⦃conv : Conversions⦄ ⦃B : Bridge⦄ where
  parse_source-imports :
      (text : Bytes) (node : Module) (p : Parser)
      → parse_source text ≡ done node p
      → node.imports ≡ []
  unfolding parse_source
  parse_source-imports text node p e = elim (Run-cases (ready (text ++ (0 ∷ [])))) [
    | inl (s, q) ↦ parse-imports s node p (sym (ap parse_ready q) ∙ e)
    | inr (x, q) ↦ let f = sym (ap parse_ready q) ∙ e in cc
  ]

  ran_on-modules :
      (g f : Engine) (b : Bool) (r : Run (Bool × B.State))
      → at_end (ran_on g r) ≡ ok (ran b, f)
      → f.modules ≡ g.modules
  ran_on-modules g f b (ok (c, s)) q =
      let e : record g { bridge = s } ≡ f = cc in sym (ap (λ (x : Engine). x.modules) e)
  ran_on-modules g f b (fault x) q = cc

  run-modules :
      (r : Request) (unit : OmisModule) (g f : Engine) (b : Bool)
      → at_end (if r.is_run then jit unit g else aot unit g) ≡ ok (ran b, f)
      → f.modules ≡ g.modules
  unfolding jit aot
  run-modules r unit g f b q = elim (Bool-cases r.is_run) [
    | inl y ↦ ran_on-modules g f b (B.jit unit.handle g.bridge) (sym (rw y refl) ∙ q)
    | inr n ↦ ran_on-modules g f b (B.aot unit.handle g.bridge) (sym (rw n refl) ∙ q)
  ]

  -- A run of code to the end: there was a module, and the engine's modules stay.
  run_code-ran :
      (r : Request) (f : Engine) (b : Bool) (o : Outcome Engine OmisModule)
      → run_code r o ≡ ok (ran b, f)
      → (unit : OmisModule) × ((g : Engine) × ((o ≡ done unit g) × (f.modules ≡ g.modules)))
  run_code-ran r f b (done unit g) q = elim (Bool-cases r.output_opens) [
    | inl y ↦ (unit, (g, (refl, run-modules r unit g f b (sym (rw y refl) ∙ q))))
    | inr n ↦ let e : ok (no_output, g) ≡ ok (ran b, f) = sym (rw n refl) ∙ q in cc
  ]
  run_code-ran r f b (null g) q = cc
  run_code-ran r f b (failed x) q = cc

  code_tree-ran :
      (r : Request) (e f : Engine) (b : Bool) (o : Outcome Parser Module)
      → code_tree none none r e o ≡ ok (ran b, f)
      → (node : Module) × ((p : Parser) × ((o ≡ done node p)
            × (run_code r (encode none none [] node e) ≡ ok (ran b, f))))
  code_tree-ran r e f b (done node p) q = (node, (p, (refl, q)))
  code_tree-ran r e f b (null p) q = cc
  code_tree-ran r e f b (failed x) q = cc

  -- The source was parsed to a tree with no imports, of which all statements are encodable outside of loops; the
  -- engine had no module of the empty name before, and has the encoded one after, in which each handle has one
  -- object.
  pub record IsCompiled (r : Request) (e f : Engine) : Type 0 where
    pub text : Bytes
    pub node : Module
    pub parser : Parser
    pub unit : OmisModule
    pub source : r.source ≡ some text
    pub parsed : parse_source text ≡ done node parser
    pub no_imports : node.imports ≡ []
    pub all_encodable : AllEncodable false node.body
    pub free : get_module [] e ≡ none
    pub entered : get_module [] f ≡ some unit
    pub interned : Interned unit

  -- If eokas_main gets to its end, with no targets in the memory of a new module, the source was parsed to a tree
  -- with no imports, of which all statements are encodable outside of loops; the engine had no module of the empty
  -- name before, and has the encoded one after, in which each handle has one object.
  pub eokas_main-IsCompiled :
      (r : Request) (e f : Engine) (b : Bool)
      → eokas_main none none r e ≡ ok (ran b, f)
      → IsCompiled r e f
  unfolding eokas_main get_module
  eokas_main-IsCompiled r e f b q = elim (Option-cases r.source) [
    | inl n ↦ let x : ok (no_source, e) ≡ ok (ran b, f) = sym (rw n refl) ∙ q in cc
    | inr (text, y) ↦
        let (node, (p, (t, c))) =
          code_tree-ran r e f b (parse_source text) (sym (rw (eokas_main, y) refl) ∙ q) in
        let (unit, (g, (d, k))) = run_code-ran r f b (encode none none [] node e) c in
        let (found, again) = encode-once none none none none [] node node unit e g d in
        let (all, one) = encode-code [] node unit e g d in
        let (code, (free, modules)) = Loaded-done (encode-Loaded none none [] node e) d in
        record {
          text = text;
          node = node;
          parser = p;
          unit = unit;
          source = y;
          parsed = t;
          no_imports = parse_source-imports text node p t;
          all_encodable = all;
          free = free;
          entered = ap (get []) k ∙ found;
          interned = one;
        }
  ]
