-- ===== src/Transactions/Commit/Execution.antt =====
-- Sequences of steps: those that went through, and what every step keeps.
use an_kla_memory.Base.{String, ◌≡◌, refl, Bool, true, false, Option, none}
use an_kla_memory.Base.{List, [], ◌∷◌, inl, inr, arith, if◌then◌else◌}
use an_kla_memory.Base.{Option-cases, all}
use an_kla_memory.Transactions.Commit.{Step, Fault, Run}
use an_kla_memory.Transactions.Commit.{perform, land, execute}
use an_kla_memory.Transactions.Commit.{}

if_keeps : (P : Run → Type 0) (b : Bool) (x y : Run) → P x → P y → P (if b then x else y)
if_keeps P true x y hx hy = hx
if_keeps P false x y hx hy = hy

module _ (target : String) where
  abbrev pub perform_all : List Step → Run → Run
  perform_all [] r = r
  perform_all (step ∷ steps) r = perform_all steps (perform target step r)

  -- Steps that all went through did all that they do.
  pub execute-none :
      (fault : Step → Option Fault) (steps : List Step) (r : Run)
      → (execute target fault steps r).1 ≡ none
      → (execute target fault steps r).0 ≡ perform_all steps r
  unfolding execute
  execute-none fault [] r h = refl
  execute-none fault (step ∷ steps) r h =
      ground (arith, execute-none fault steps (perform target step r))

  -- A property that every step keeps, done or half done.
  abbrev pub KeptBy : (Run → Type 0) → Step → Type 0
  KeptBy P step = (r : Run) → P r → P (perform target step r) × P (land target step r)

  abbrev pub AllKeep : (Run → Type 0) → List Step → Type 0
  AllKeep P [] = Unit
  AllKeep P (step ∷ steps) = KeptBy P step × AllKeep P steps

  pub execute-keeps :
      (P : Run → Type 0) (fault : Step → Option Fault) (steps : List Step) (r : Run)
      → AllKeep P steps
      → P r
      → P (execute target fault steps r).0
  unfolding execute
  execute-keeps P fault [] r all h = h
  execute-keeps P fault (step ∷ steps) r all h = elim (Option-cases (fault step)) [
    | inl e ↦
        rw (e, execute) (execute-keeps P fault steps (perform target step r) all.1 (all.0 r h).0)
    | inr (f, e) ↦ rw (e, execute) (if_keeps P f.landed _ _ (all.0 r h).1 h)
  ]

  pub keep_all :
      (P : Run → Type 0) (test : Step → Bool)
      → ((step : Step) → test step ≡ true → KeptBy P step)
      → (steps : List Step) → all test steps ≡ true
      → AllKeep P steps
  keep_all P test each [] h = tt
  keep_all P test each (step ∷ steps) h =
      (each step (ground arith), keep_all P test each steps (ground arith))
