-- ===== src/Transactions/Binding.antt =====
-- The checks of `commit_locked` (an_kla/transactions.py) before its first write: one transaction
-- identifier stands for one attempt.
use an_kla_memory.Base.{String, Bool, true, false, not, ◌&&◌, ◌||◌, Option, none, some, List, []}
use an_kla_memory.Base.{
  ◌∷◌, ◌++◌, if◌then◌else◌, any, all, ltb, length, Result, ok, transaction, Error,
}
use an_kla_memory.Base.{raise_if, ◌>>=◌, ◌>>◌, err, ◌==◌}

-- What `_journal` found.
pub data Journal {ℓ} (A : Type ℓ) : Type ℓ where
  corrupt : Journal A
  entry : A → Journal A

abbrev pub is_nil {ℓ} : {A : Type ℓ} → List A → Bool
is_nil [] = true
is_nil (x ∷ xs) = false

abbrev conflict : Error
conflict = transaction "transaction_binding_conflict"

abbrev missing : Error
missing = transaction "transaction_evidence_missing_or_invalid"

-- What an operation may bring along.
unfoldable pub check_operation : String → Bool → Bool → Bool → Result (Unit {0})
check_operation operation patches_checkpoint has_metadata has_refute_objects = do
  raise_if (not (operation == "checkpoint") && patches_checkpoint)
      (transaction "governed_checkpoint_update_required")
  raise_if
      (if operation == "refute"
        then not has_metadata || not has_refute_objects
        else has_refute_objects)
      (transaction "invalid_refute_objects")

module _ {ℓ} {A : Type ℓ} (same : A → A → Bool) where
  -- The attempts that the journal and the stages tell of.
  unfoldable pub known_attempts : A → Option (Journal A) → List String → List A → Result (List A)
  known_attempts checked (some (entry prior)) candidates stages =
      raise_if (not (same prior checked)) conflict >> ok (stages ++ (prior ∷ []))
  known_attempts checked (some corrupt) candidates stages =
      raise_if (is_nil stages && is_nil candidates) missing >> ok stages
  known_attempts checked none candidates stages = ok stages

  unfoldable pub check_binding : A → Option (Journal A) → List String → List A → Result (Unit {0})
  unfolding known_attempts
  check_binding checked journal candidates stages = do
    raise_if (ltb 1 (length candidates)) (transaction "transaction_candidate_ambiguous")
    attempts ← known_attempts checked journal candidates stages
    raise_if (any (λ prior. not (same prior checked)) attempts) conflict
    raise_if (not (is_nil candidates) && is_nil attempts) missing

  -- Three questions on what the store knows of a transaction: whether its journal and its stages
  -- are of this attempt, whether anything points to a commit, and whether an attempt is on record.
  abbrev pub agrees : A → Option (Journal A) → List A → Bool
  agrees checked (some (entry prior)) stages =
      all (λ x. same x checked) stages && same prior checked
  agrees checked _ stages = all (λ x. same x checked) stages

  abbrev pub points_to : Option (Journal A) → List String → Bool
  points_to (some corrupt) candidates = true
  points_to _ candidates = not (is_nil candidates)

  abbrev pub on_record : Option (Journal A) → List A → Bool
  on_record (some (entry prior)) stages = true
  on_record _ stages = not (is_nil stages)

  abbrev pub binding_verdict : A → Option (Journal A) → List String → List A → Result (Unit {0})
  binding_verdict checked journal candidates stages =
      if ltb 1 (length candidates)
      then err (transaction "transaction_candidate_ambiguous")
      else if not (agrees checked journal stages)
      then err conflict
      else if points_to journal candidates && not (on_record journal stages)
      then err missing
      else ok tt
