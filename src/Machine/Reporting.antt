-- ===== src/Machine/Reporting.antt =====
-- What the execution of a run reports.
use agents_admin.Prelude.{
  ℕ, zero, suc, ◌+◌, Bool, String, none, some, List, [], ◌∷◌, ◌++◌, ◌≡◌, refl, ap, ◌∙◌, inl, inr,
  arith, length, Option-cases,
}
use agents_admin.Machine.Adapters.{gives, Adapter, Parsed}
use agents_admin.Machine.Execution.{
  closing, Surroundings, Fetched, Plan, plan, Report, event, status, report_lines, scanned,
  stream_output, attend, start_payload, docker_args, started, execute,
}

-- The sequence numbers of the events among some reports.
abbrev pub seqs : List Report → List ℕ
seqs [] = []
seqs (event n _ _ _ ∷ rs) = n ∷ seqs rs
seqs (status _ ∷ rs) = seqs rs

-- Numbers from one on, and how many.
abbrev pub up_from : ℕ → ℕ → List ℕ
up_from n zero = []
up_from n (suc k) = n ∷ up_from (suc n) k

-- The lines that an adapter knows, in order.
abbrev pub known_lines : Adapter → List String → List String
known_lines a [] = []
known_lines a (line ∷ lines) =
    let rest = known_lines a lines in
    elim (a.parse_event line) [ none ↦ rest | some _ ↦ line ∷ rest ]

-- The raw texts that events carry.
abbrev pub raws : List Report → List String
raws [] = []
raws (event _ _ _ raw ∷ rs) = raw ∷ raws rs
raws (status _ ∷ rs) = raws rs

seqs-++ : (xs ys : List Report) → seqs (xs ++ ys) ≡ seqs xs ++ seqs ys
seqs-++ [] ys = refl
seqs-++ (event n _ _ _ ∷ xs) ys = ap (λ l. n ∷ l) (seqs-++ xs ys)
seqs-++ (status _ ∷ xs) ys = seqs-++ xs ys

raws-++ : (xs ys : List Report) → raws (xs ++ ys) ≡ raws xs ++ raws ys
raws-++ [] ys = refl
raws-++ (event _ _ _ r ∷ xs) ys = ap (λ l. r ∷ l) (raws-++ xs ys)
raws-++ (status _ ∷ xs) ys = raws-++ xs ys

module _ (a : Adapter) where
  report_lines-none :
      (n : ℕ) (line : String) (lines : List String)
      → a.parse_event line ≡ none
      → report_lines a n (line ∷ lines) ≡ report_lines a n lines
  unfolding report_lines
  report_lines-none n line lines e = rw (report_lines, e) refl

  report_lines-some :
      (n : ℕ) (line : String) (lines : List String) (p : Parsed)
      → a.parse_event line ≡ some p
      → report_lines a n (line ∷ lines)
        ≡ event n p.type p.payload line ∷ report_lines a (suc n) lines
  unfolding report_lines
  report_lines-some n line lines p e = rw (report_lines, e) refl

  report_lines-seqs :
      (n : ℕ) (lines : List String)
      → seqs (report_lines a n lines) ≡ up_from n (length (known_lines a lines))
  unfolding report_lines
  report_lines-seqs n [] = refl
  report_lines-seqs n (line ∷ lines) = elim (Option-cases (a.parse_event line)) [
    | inl e ↦ rw (report_lines-none n line lines e, known_lines, e) (report_lines-seqs n lines)
    | inr (p, e) ↦
        rw (report_lines-some n line lines p e, known_lines, e)
          (ap (λ l. n ∷ l) (report_lines-seqs (suc n) lines))
  ]

  report_lines-raws :
      (n : ℕ) (lines : List String) → raws (report_lines a n lines) ≡ known_lines a lines
  unfolding report_lines
  report_lines-raws n [] = refl
  report_lines-raws n (line ∷ lines) = elim (Option-cases (a.parse_event line)) [
    | inl e ↦ rw (report_lines-none n line lines e, known_lines, e) (report_lines-raws n lines)
    | inr (p, e) ↦
        rw (report_lines-some n line lines p e, known_lines, e)
          (ap (λ l. line ∷ l) (report_lines-raws (suc n) lines))
  ]

  report_lines-length :
      (n : ℕ) (lines : List String) → length (report_lines a n lines) ≡ length (known_lines a lines)
  unfolding report_lines
  report_lines-length n [] = refl
  report_lines-length n (line ∷ lines) = elim (Option-cases (a.parse_event line)) [
    | inl e ↦ rw (report_lines-none n line lines e, known_lines, e) (report_lines-length n lines)
    | inr (p, e) ↦
        rw (report_lines-some n line lines p e, known_lines, e)
          (ap suc (report_lines-length (suc n) lines))
  ]

up_from-last : (n k : ℕ) → up_from n k ++ ((n + k) ∷ []) ≡ up_from n (suc k)
up_from-last n zero = ap (λ m. m ∷ []) (omega arith)
up_from-last n (suc k) = ap (λ l. n ∷ l) (shift ∙ up_from-last (suc n) k)
  where
    shift : up_from (suc n) k ++ ((n + suc k) ∷ []) ≡ up_from (suc n) k ++ ((suc n + k) ∷ [])
    shift = rw moved refl
      where
        moved : n + suc k ≡ suc n + k
        moved = omega arith

module _ (s : Surroundings) (run : Fetched) (p : Plan) (planned : plan s run ≡ gives p) where
  abbrev known : List String
  known = known_lines p.adapter (scanned (s.output (docker_args p)))

  execute-planned : execute s run ≡ event 1 "run_started" (start_payload s p) "" ∷ started s p
  unfolding execute
  execute-planned = rw (execute, planned) refl

  abbrev last_two : Bool → List Report
  last_two well =
      closing s (length (stream_output p.adapter 2 (s.output (docker_args p)))) (some well)

  started-attend :
      (well : Bool)
      → s.start (docker_args p) ≡ none
      → s.exits (docker_args p) ≡ some well
      → started s p ≡ stream_output p.adapter 2 (s.output (docker_args p)) ++ last_two well
  unfolding attend
  started-attend well begun exited = rw (started, begun, attend, exited) refl

  -- An execution that is planned and whose command starts and exits reports one event when it starts, one for
  -- each line of output that its adapter knows, up to the first one of 1024 * 1024 bytes or more, in
  -- order and with that line, without a carriage return at its end, as its raw text, and one when it
  -- ends; the events are numbered from 1 on without a gap.
  pub execute-seqs :
      (well : Bool)
      → s.start (docker_args p) ≡ none
      → s.exits (docker_args p) ≡ some well
      → (seqs (execute s run) ≡ up_from 1 (suc (suc (length known))))
        × (raws (execute s run) ≡ ("" ∷ known) ++ ("" ∷ []))
  unfolding stream_output
  execute-seqs well begun exited =
      let stream = stream_output p.adapter 2 (s.output (docker_args p)) in
      (
        ap seqs (
              execute-planned
              ∙ ap (λ l. event 1 "run_started" (start_payload s p) "" ∷ l)
                  (started-attend well begun exited))
            ∙ ap (λ l. 1 ∷ l)
                (seqs-++ stream (last_two well)
                  ∙ ap (λ l. l ++ ((2 + length stream) ∷ []))
                      (report_lines-seqs p.adapter 2 (scanned (s.output (docker_args p))))
                  ∙ ap (λ k. up_from 2 (length known) ++ ((2 + k) ∷ []))
                      (report_lines-length p.adapter 2 (scanned (s.output (docker_args p))))
                  ∙ up_from-last 2 (length known)),
        ap raws (
              execute-planned
              ∙ ap (λ l. event 1 "run_started" (start_payload s p) "" ∷ l)
                  (started-attend well begun exited))
            ∙ ap (λ l. "" ∷ l)
                (raws-++ stream (last_two well)
                  ∙ ap (λ l. l ++ ("" ∷ []))
                      (report_lines-raws p.adapter 2 (scanned (s.output (docker_args p))))),
      )
