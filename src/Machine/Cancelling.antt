-- ===== src/Machine/Cancelling.antt =====
-- An execution that is cancelled does not say so.
use agents_admin.Prelude.{
  ℕ, zero, suc, ◌+◌, ◌≤◌, Bool, true, false, String, concat, str_eq, eq_iff, Option, none, some,
  List, [], ◌∷◌, ◌++◌, ◌≡◌, refl, sym, ap, ◌∙◌, inl, inr, subst, arith, length, take, Bool-cases,
  All, Has, All-Has,
}
use agents_admin.Machine.Adapters.{Result, gives, refuses}
use agents_admin.Machine.Execution.{
  Surroundings, Fetched, Plan, plan, Report, event, status, report_error, stream_output, attend,
  start_payload, closing, final_status, is_cancelled_by, docker_args, started, execute,
  before_cancel,
}
use agents_admin.Machine.Statuses.{All-++, All-take, All-before_cancel, All-stream_output}

-- Not the status of a cancelled run.
abbrev Calm : Report → Type 0
Calm (event _ _ _ _) = Unit
Calm (status t) = t ≡ "cancelled" → ⊥

other_text : (x y : String) → str_eq x y ≡ false → x ≡ y → ⊥
other_text x y e h = booleans (sym e ∙ (eq_iff x y).1 h)
  where
    booleans : false ≡ true → ⊥
    booleans f = cc

failed-Calm : (message : String) → All Calm (report_error message)
unfolding report_error
failed-Calm message = (tt, (other_text "failed" "cancelled" refl, tt))

take-++ : (n : ℕ) (xs ys : List Report) → n ≤ length xs → take n (xs ++ ys) ≡ take n xs
take-++ zero xs ys h = refl
take-++ (suc n) [] ys h = elim (absurd h) [ ]
  where
    absurd : suc n ≤ 0 → ⊥
    absurd k = omega arith
take-++ (suc n) (x ∷ xs) ys h = ap (λ l. x ∷ l) (take-++ n xs ys (omega arith))

module _ (s : Surroundings) (p : Plan) where
  abbrev streamed : List Report
  streamed = stream_output p.adapter 2 (s.output (docker_args p))

  streamed-Calm : All Calm streamed
  streamed-Calm =
      All-stream_output Calm p.adapter 2 (s.output (docker_args p)) (λ k t payload raw. tt)

  abbrev last_two : List Report
  last_two = closing s (length streamed) (s.exits (docker_args p))

  -- A command that fails before it is cancelled has failed.
  late-Calm :
      (well : Bool)
      → is_cancelled_by s.cancelled (1 + length streamed) ≡ false
      → final_status s well (1 + length streamed) ≡ "cancelled"
      → ⊥
  late-Calm true f = other_text "done" "cancelled" refl
  late-Calm false f = rw f (other_text "failed" "cancelled" refl)

  closing-Calm :
      (o : Option Bool)
      → is_cancelled_by s.cancelled (1 + length streamed) ≡ false
      → All Calm (closing s (length streamed) o)
  closing-Calm none late = tt
  closing-Calm (some well) late = (tt, (late-Calm well late, tt))

  -- The first reports of an execution whose cancellation came before its end.
  cut-Calm :
      (c : Option ℕ) (first : Report)
      → Calm first
      → is_cancelled_by c (1 + length streamed) ≡ true
      → All Calm (before_cancel c (first ∷ streamed ++ last_two))
  cut-Calm none first calm early = elim (false_is_true early) [ ]
    where
      false_is_true : false ≡ true → ⊥
      false_is_true f = cc
  cut-Calm (some zero) first calm early = tt
  cut-Calm (some (suc n)) first calm early = (
    calm,
    subst (All Calm) (sym (take-++ n streamed last_two within))
        (All-take Calm n streamed streamed-Calm),
  )
    where
      within : n ≤ length streamed
      within = ground arith

  attend-Calm :
      (first : Report) → Calm first → All Calm (before_cancel s.cancelled (first ∷ attend s p))
  unfolding attend
  attend-Calm first calm = elim (Bool-cases (is_cancelled_by s.cancelled (1 + length streamed))) [
    | inl early ↦ cut-Calm s.cancelled first calm early
    | inr late ↦ All-before_cancel Calm s.cancelled (first ∷ streamed ++ last_two) (
      calm,
      All-++ Calm streamed last_two streamed-Calm (closing-Calm (s.exits (docker_args p)) late),
    )
  ]

  started-Calm :
      (o : Option String) (first : Report)
      → Calm first
      → All Calm (
          before_cancel s.cancelled
            (first ∷ elim o [ some e ↦ report_error (concat "启动失败: " e) | none ↦ attend s p ]))
  started-Calm none first calm = attend-Calm first calm
  started-Calm (some e) first calm =
      All-before_cancel Calm s.cancelled (first ∷ report_error (concat "启动失败: " e))
        (calm, failed-Calm (concat "启动失败: " e))

execute-Calm :
    (s : Surroundings) (run : Fetched) → All Calm (before_cancel s.cancelled (execute s run))
unfolding execute
execute-Calm s run = whole (plan s run)
  where
    whole :
        (r : Result Plan)
        → All Calm (
            before_cancel s.cancelled (elim r [
              | refuses e ↦ report_error e
              | gives p ↦ event 1 "run_started" (start_payload s p) "" ∷ started s p
            ]))
    whole (refuses e) = All-before_cancel Calm s.cancelled (report_error e) (failed-Calm e)
    whole (gives p) = started-Calm s p (s.start (docker_args p)) _ tt

-- The requests of an execution that are sent never include the status of a cancelled run: where that
-- is the status, the execution was cancelled before, and a request is not sent after that.
pub execute-uncancelled :
    (s : Surroundings) (run : Fetched)
    → ¬ Has (status "cancelled") (before_cancel s.cancelled (execute s run))
execute-uncancelled s run m =
    All-Has Calm (status "cancelled") (before_cancel s.cancelled (execute s run))
      (execute-Calm s run) m refl
