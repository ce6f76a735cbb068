-- ===== src/Workspace/Files/Steps.antt =====
-- How a sequence of fallible operations on files succeeds.
use millrace_rs.Base.{◌≡◌, refl, sym, ap, ◌∙◌, Result, ok, err, arith}
use millrace_rs.Workspace.Files.{Files, StepOf, continue, ◌>>=◌}

module _ {E A : Type 0} where
  pub result : Result E A × Files → Result E A
  result r = r.0

  -- A result is no error.
  pub err-ne-ok :
      (e : E) (a : A) (files files' : Files)
      → ◌≡◌ {A = Result E A × Files} (err e, files) (ok a, files')
      → ⊥
  unfolding result
  err-ne-ok e a files files' h = ground (arith, ap result h)

module _ {E A B : Type 0} (m : StepOf E A) (f : A → StepOf E B) where
  -- Both parts of a sequence succeed when the whole does.
  pub bind-ok :
      (files files' : Files) (b : B)
      → (m >>= f) files ≡ (ok b, files')
      → (a : A) × (between : Files) × (m files ≡ (ok a, between)) × (f a between ≡ (ok b, files'))
  unfolding ◌>>=◌
  bind-ok files files' b h = on (m files) refl h
    where
      on :
          (r : Result E A × Files)
          → m files ≡ r
          → continue r.0 f r.1 ≡ (ok b, files')
          → (a : A) × (between : Files) × (m files ≡ (ok a, between))
            × (f a between ≡ (ok b, files'))
      on (ok a, between) e k = (a, between, e, k)
      on (err x, between) e k = absurd (err-ne-ok x b between files' k)

  -- A sequence changes no file if neither part does.
  pub bind-keeps :
      (files : Files)
      → (m files).1 ≡ files
      → ((a : A) → (f a files).1 ≡ files)
      → ((m >>= f) files).1 ≡ files
  unfolding ◌>>=◌
  bind-keeps files h k = on (m files).0 (m files).1 h
    where
      on : (r : Result E A) (between : Files) → between ≡ files → (continue r f between).1 ≡ files
      on (ok a) between e = ap (λ g. (f a g).1) e ∙ k a
      on (err x) between e = e

  -- The same when the first part changes no file.
  pub bind-ok_read :
      (files files' : Files) (b : B)
      → (m files).1 ≡ files
      → (m >>= f) files ≡ (ok b, files')
      → (a : A) × (m files ≡ (ok a, files)) × (f a files ≡ (ok b, files'))
  bind-ok_read files files' b keeps h =
      let (a, between, e, k) = bind-ok files files' b h in
      let same : between ≡ files = sym (ap (λ (r : Result E A × Files). r.1) e) ∙ keeps in
      (a, rw same at e, rw same at k)
