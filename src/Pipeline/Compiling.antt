-- ===== src/Pipeline/Compiling.antt =====
-- What a compilation by pipeline.py and executor.py of judge/judge_worker comes to.
use byte_battles.Base.{
  ◌≡◌, ◌∙◌, subst, ◌≢◌, ◌⊎◌, inl, inr, true, false, some, arith, ◌==◌, ==_iff, Bool-cases,
}
use byte_battles.Base.Exec.{Result, ok, bind-eq-ok, pure}
use byte_battles.Services.{Services}
use byte_battles.Config.{Config}
use byte_battles.Base.Text.{Text}
use byte_battles.Enums.{Language, Verdict}
use byte_battles.Executor.{CompileResult, compile_c, compile_cpp, compile_result}
use byte_battles.Pipeline.{SubmissionResult, after_compile, compile}

module _ (env : Services) (config : Config) (container : Text) where
  open env use {State}

  -- The compiler of the language returned so.
  abbrev pub CompilerRan : Language → State → CompileResult → State → Type 0
  CompilerRan Language.c m x u = compile_c env config container m ≡ (ok x, u)
  CompilerRan Language.cpp m x u = compile_cpp env config container m ≡ (ok x, u)
  CompilerRan Language.python m x u = ⊥

  -- The compiler succeeded, or the language has none.
  abbrev pub IsCompiled : Language → State → State → Type 0
  IsCompiled Language.c m u = (x : CompileResult) × CompilerRan Language.c m x u × (x.exit_code ≡ 0)
  IsCompiled Language.cpp m u =
      (x : CompileResult) × CompilerRan Language.cpp m x u × (x.exit_code ≡ 0)
  IsCompiled Language.python m u = u ≡ m

  compile_c-ok :
      (s t : State) (x : CompileResult)
      → compile_c env config container s ≡ (ok x, t)
      → x.ok ≡ (x.exit_code == 0)
  unfolding compile_c compile_result
  compile_c-ok s t x e = ground arith

  compile_cpp-ok :
      (s t : State) (x : CompileResult)
      → compile_cpp env config container s ≡ (ok x, t)
      → x.ok ≡ (x.exit_code == 0)
  unfolding compile_cpp compile_result
  compile_cpp-ok s t x e = ground arith

  -- What is made of a compilation that returned.
  after_compile-cases :
      (result c : SubmissionResult) (x : CompileResult) (s t : State)
      → x.ok ≡ (x.exit_code == 0)
      → ◌≡◌ {A = Result SubmissionResult × State} (ok (after_compile result x), s) (ok c, t)
      → (s ≡ t)
        × (((c ≡ result) × (x.exit_code ≡ 0))
            ⊎ ((x.exit_code ≢ 0)
                × (c ≡ record result {
                  verdict = Verdict.compilation_error;
                  output = some x.output;
                })))
  unfolding after_compile
  after_compile-cases result c x s t h e = elim (Bool-cases (x.exit_code == 0)) [
    | inl q ↦
        let k : x.ok ≡ true = h ∙ q in
        let g = rw k at e in (cc g, inl (cc g, (==_iff x.exit_code 0).0 q))
    | inr q ↦
        let k : x.ok ≡ false = h ∙ q in
        let g = rw k at e in (cc g, inr ((λ z. ground (arith, q, z)), cc g))
  ]

  -- A compilation that returned: the result is as it was, or says why it failed.
  abbrev pub CompileCases : Language → SubmissionResult → SubmissionResult → State → State → Type 0
  CompileCases l result c s t =
      ((c ≡ result) × IsCompiled l s t)
      ⊎ ((x : CompileResult) × CompilerRan l s x t
          × (x.exit_code ≢ 0)
          × (c ≡ record result { verdict = Verdict.compilation_error; output = some x.output }))

  pub compile-cases :
      (l : Language) (result c : SubmissionResult) (s t : State)
      → compile env config container l result s ≡ (ok c, t)
      → CompileCases l result c s t
  unfolding compile
  compile-cases Language.c result c s t e =
      let (x, u, ran, tail) =
        bind-eq-ok (compile_c env config container) (λ y. pure (after_compile result y)) s e in
      let (same, cases) = after_compile-cases result c x u t (compile_c-ok s u x ran) tail in
      let ran' = subst (λ v. CompilerRan Language.c s x v) same ran in
      elim cases [ inl (y, z) ↦ inl (y, (x, ran', z)) | inr (y, z) ↦ inr (x, ran', y, z) ]
  compile-cases Language.cpp result c s t e =
      let (x, u, ran, tail) =
        bind-eq-ok (compile_cpp env config container) (λ y. pure (after_compile result y)) s e in
      let (same, cases) = after_compile-cases result c x u t (compile_cpp-ok s u x ran) tail in
      let ran' = subst (λ v. CompilerRan Language.cpp s x v) same ran in
      elim cases [ inl (y, z) ↦ inl (y, (x, ran', z)) | inr (y, z) ↦ inr (x, ran', y, z) ]
  compile-cases Language.python result c s t e = inl (cc e, cc e)
