-- ===== src/Datamodel/Table/Registry.antt =====
-- What the operations leave in `sqldb._databases`.
use vignemale.Cli.Collect.Syntax.{calls}
use vignemale.Datamodel.Columns.{TableClass}
use vignemale.Datamodel.Table.{
  Core, Request, Tables, ask, ensure, ensure_request, mark, raw_op, registered, run_op,
}
use vignemale.Datamodel.Table.Program.{TableCall, run_calls}
use vignemale.Prelude.{
  All, Bool-cases, List, [], arith, contains, false, inl, inr, is_empty, length, length-append,
  nat_eq, opt_eq, pair_eq, ◌+◌, ◌∷◌, ◌≡◌, ◌≤◌,
}
use vignemale.Prelude.Text.{Text, text_eq}
use vignemale.Python.{Result, Value, and_then, ok, raise}
use vignemale.Python.Env.{Env}

module _ (C : Core) (env : Env) where
  length-registered :
      (t : TableClass) (names : List Text)
      → is_empty t.database ≡ false
      → length (registered t names) ≡ length names + 1
  unfolding registered
  length-registered t names h = rw (h, registered) (length-append names (t.database ∷ []))

  second_grows :
      (t : TableClass) (q : Request) (s : Tables C) (x : Result (Unit {0}) × Tables C)
      → is_empty t.database ≡ false
      → length s.databases + 1 ≤ length x.1.databases
      → length s.databases + 1 ≤ length (and_then x (λ _ s'. raw_op C env t q s')).1.databases
  unfolding raw_op
  second_grows t q s (raise e, u) h grown = grown
  second_grows t q s (ok _, u) h grown = omega (arith, length-registered t u.databases h)

  mark_grows :
      (t : TableClass) (s : Tables C) (r : Result Value) (u : Tables C)
      → length s.databases + 1 ≤ length u.databases
      → length s.databases + 1 ≤ length (and_then (r, u) (mark C env t)).1.databases
  mark_grows t s (raise e) u grown = grown
  mark_grows t s (ok v) u grown = grown

  run_op_grows :
      (t : TableClass) (q : Request) (s : Tables C)
      → is_empty t.database ≡ false
      → length s.databases + 1 ≤ length (run_op C env t q s).1.databases
  unfolding run_op ensure raw_op
  run_op_grows t q s h = elim (Bool-cases (contains t.model_name s.ensured)) [
    | inl marked ↦ rw (marked, run_op, ensure) (omega (arith, length-registered t s.databases h))
    | inr new ↦
        rw (new, run_op, ensure)
          (second_grows t q s (and_then (raw_op C env t ensure_request s) (mark C env t)) h (
            mark_grows t s (ask C env t ensure_request s.core).0 _
              (omega (arith, length-registered t s.databases h))))
  ]

  -- Every operation on a table with a database appends at least one more entry to the registry of
  -- databases, however it ends: after a program of operations it has grown by at least their number.
  pub run_calls_grows :
      (calls : List TableCall) (s : Tables C)
      → All (λ call. is_empty call.0.database ≡ false) calls
      → length s.databases + length calls ≤ length (run_calls C env calls s).1.databases
  unfolding run_calls
  run_calls_grows [] s h = omega arith
  run_calls_grows ((t, q) ∷ calls) s h =
      omega (arith, run_op_grows t q s h.0, run_calls_grows calls (run_op C env t q s).1 h.1)
