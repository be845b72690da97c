-- ===== src/Call/Trace.antt =====
-- `_child_traceparent` of `vignemale/call.py`. The two calls of `token_hex` are arguments.
use vignemale.Prelude.{
  All, Bool-cases, List, [], arith, if◌then◌else◌, inl, inr, length, nat_eq, opt_eq, pair_eq, refl,
  ◌==◌, ◌∷◌, ◌≡◌,
}
use vignemale.Prelude.Text.{Text, codes, join, split, text_eq}
use vignemale.Prelude.Text.Split.{Free, split-Free, split-join}

-- `parts[1] if len(parts) >= 4 and len(parts[1]) == 32 else token_hex(16)`
unfoldable pub trace_id : List Text → Text → Text
trace_id (version ∷ t ∷ span ∷ flags ∷ more) fresh = if length t == 32 then t else fresh
trace_id _ fresh = fresh

unfoldable pub child_traceparent : Text → Text → Text → Text
child_traceparent incoming fresh span =
    join (codes "-") (codes "00" ∷ trace_id (split b'-' incoming) fresh ∷ span ∷ codes "01" ∷ [])

-- A trace id: 32 characters, no dash.
abbrev pub IsTraceId : Text → Type 0
IsTraceId t = (length t ≡ 32) × Free b'-' t

trace_id-IsTraceId :
    (parts : List Text) (fresh : Text)
    → All (Free b'-') parts
    → IsTraceId fresh
    → IsTraceId (trace_id parts fresh)
unfolding trace_id
trace_id-IsTraceId [] fresh free h = h
trace_id-IsTraceId (v ∷ []) fresh free h = h
trace_id-IsTraceId (v ∷ (t ∷ [])) fresh free h = h
trace_id-IsTraceId (v ∷ (t ∷ (s ∷ []))) fresh free h = h
trace_id-IsTraceId (v ∷ (t ∷ (s ∷ (f ∷ more)))) fresh free h = elim (Bool-cases (length t == 32)) [
  | inl fits ↦ rw fits ((nat_eq.beq_iff (length t) 32).0 fits, free.1.0)
  | inr other_size ↦ rw other_size h
]

trace_id-eq : (v t s f fresh : Text) → length t ≡ 32 → trace_id (v ∷ t ∷ s ∷ f ∷ []) fresh ≡ t
unfolding trace_id
trace_id-eq v t s f fresh h = ground arith

-- Whatever arrives, the header that is sent on has exactly four parts: the version 00, a trace id
-- of 32 characters, the new span and the flags 01.
pub split-child_traceparent :
    (incoming fresh span : Text)
    → IsTraceId fresh
    → Free b'-' span
    → let t = trace_id (split b'-' incoming) fresh in
      (split b'-' (child_traceparent incoming fresh span) ≡ codes "00" ∷ t ∷ span ∷ codes "01" ∷ [])
      × IsTraceId t
unfolding child_traceparent
split-child_traceparent incoming fresh span h free =
    let t = trace_id (split b'-' incoming) fresh in
    let good = trace_id-IsTraceId (split b'-' incoming) fresh (split-Free b'-' incoming) h in
    (
      split-join b'-' (codes "00") (t ∷ span ∷ codes "01" ∷ [])
          (refl, (good.1, (free, (refl, tt)))),
      good,
    )

-- Along a chain of calls the trace id stays the same: what the next service reads from the header
-- is the id that this one sent, and not a fresh one.
pub trace_id-child_traceparent :
    (incoming fresh span later : Text)
    → IsTraceId fresh
    → Free b'-' span
    → trace_id (split b'-' (child_traceparent incoming fresh span)) later
      ≡ trace_id (split b'-' incoming) fresh
trace_id-child_traceparent incoming fresh span later h free =
    let (parts, good) = split-child_traceparent incoming fresh span h free in
    rw parts (
      trace_id-eq (codes "00") (trace_id (split b'-' incoming) fresh) span (codes "01") later
        good.0)
