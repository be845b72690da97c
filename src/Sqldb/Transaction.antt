-- ===== src/Sqldb/Transaction.antt =====
-- `Transaction` of `vignemale/sqldb.py`: the context manager. The core's `begin`, `commit` and
-- `rollback` are parameters.
use vignemale.Prelude.{
  Bool, Option, Option-cases, false, if◌then◌else◌, inl, inr, none, refl, some, true, ℕ, ◌≡◌, ◌⊎◌,
}
use vignemale.Prelude.Text.{Text}
use vignemale.Python.{Result, ok, raise, sql_error}

pub data TxOp : Type 0 where
  tx_commit tx_rollback : ℕ → TxOp

-- What `__exit__` asks of the core, how it ends, and `_id` afterwards.
pub record Exit : Type 0 where
  pub asked : Option TxOp
  pub outcome : Result (Unit {0})
  pub id : Option ℕ

-- `__enter__`: the new id
unfoldable pub enter : Text ⊎ ℕ → Result ℕ
enter (inl message) = raise (sql_error message)
enter (inr id) = ok id

-- The `except` clause: the core's error is raised again as `SQLError`, unless an exception of the
-- block is under way.
unfoldable pub exit_outcome : Bool → Option Text → Result (Unit {0})
exit_outcome raised none = ok tt
exit_outcome raised (some message) = if raised then ok tt else raise (sql_error message)

-- `finish` is the core's answer: an error text, or none.
module _ (finish : TxOp → Option Text) where
  -- `__exit__`; the flag says that an exception crosses the block.
  unfoldable pub leave : Option ℕ → Bool → Exit
  unfolding exit_outcome
  leave none raised = record { asked = none; outcome = ok tt; id = none }
  leave (some id) raised =
      let op = if raised then tx_rollback id else tx_commit id in
      record { asked = some op; outcome = exit_outcome raised (finish op); id = none }

  abbrev is_raise : {A : Type 0} → Result A → Bool
  is_raise (ok _) = false
  is_raise (raise _) = true

  -- How a `with` block ends: `__exit__` returns no true value, so that what the block did goes on;
  -- an exception of `__exit__` stands in place of it.
  abbrev with_outcome : {A : Type 0} → Result A → Result (Unit {0}) → Result A
  with_outcome r (ok _) = r
  with_outcome r (raise e) = raise e

  -- `with db.transaction() as tx: …`: what the core is asked at the end, and the outcome.
  unfoldable pub transaction : {A : Type 0} → Text ⊎ ℕ → (ℕ → Result A) → Option TxOp × Result A
  unfolding enter leave
  transaction (inl message) block = (none, raise (sql_error message))
  transaction (inr id) block =
      let r = block id in
      let x = leave (some id) (is_raise r) in (x.asked, with_outcome r x.outcome)

  -- What a transaction promises, by what the block did.
  abbrev pub promised : {A : Type 0} → ℕ → Result A → Option TxOp × Result A
  promised id (raise e) = (some (tx_rollback id), raise e)
  promised id (ok a) = (
    some (tx_commit id),
    elim (finish (tx_commit id)) [ none ↦ ok a | some message ↦ raise (sql_error message) ],
  )

  leave-promised :
      {A : Type 0} (id : ℕ) (r : Result A)
      → let x = leave (some id) (is_raise r) in (x.asked, with_outcome r x.outcome) ≡ promised id r
  unfolding leave exit_outcome
  leave-promised id (raise e) = elim (Option-cases (finish (tx_rollback id))) [
    | inl silent ↦ rw silent refl
    | inr (m, fails) ↦ rw fails refl
  ]
  leave-promised id (ok a) = elim (Option-cases (finish (tx_commit id))) [
    | inl silent ↦ rw silent refl
    | inr (m, fails) ↦ rw fails refl
  ]

  -- A block that returns is committed, and its value is returned if the commit succeeds; if the
  -- commit fails, its error is raised as `SQLError`. A block that raises is rolled back, and its
  -- own exception goes on, also if the rollback fails.
  pub transaction_ends :
      {A : Type 0} (id : ℕ) (block : ℕ → Result A)
      → transaction (inr id) block ≡ promised id (block id)
  unfolding transaction
  transaction_ends id block = leave-promised id (block id)
