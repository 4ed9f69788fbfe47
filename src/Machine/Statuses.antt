-- ===== src/Machine/Statuses.antt =====
-- The statuses that the execution of a run sends.
use agents_admin.Prelude.{
  ℕ, zero, suc, Bool, true, false, length, String, concat, Option, none, some, List, [], ◌∷◌, ◌++◌,
  ◌≡◌, refl, sym, inl, inr, subst, map, take, Bool-cases, Option-cases, All, Has,
}
use agents_admin.Json.{Fields}
use agents_admin.Model.Run.{of_string, status_is_terminal}
use agents_admin.System.{Request}
use agents_admin.System.Serving.{Respects}
use agents_admin.System.Begun.{Ending}
use agents_admin.Machine.Adapters.{Result, gives, refuses, Adapter}
use agents_admin.Machine.Execution.{
  Surroundings, Fetched, Plan, plan, Report, event, status, report_error, stream_output, attend,
  start_payload, closing, final_status, is_cancelled_by, docker_args, started, execute,
  before_cancel, request_of, delivered, arriving, report_lines, scanned,
}

module _ (P : Report → Type 0) where
  pub All-++ : (xs ys : List Report) → All P xs → All P ys → All P (xs ++ ys)
  All-++ [] ys h k = k
  All-++ (x ∷ xs) ys h k = (h.0, All-++ xs ys h.1 k)

  pub All-take : (n : ℕ) (xs : List Report) → All P xs → All P (take n xs)
  All-take zero xs h = tt
  All-take (suc n) [] h = tt
  All-take (suc n) (x ∷ xs) h = (h.0, All-take n xs h.1)

  pub All-before_cancel : (c : Option ℕ) (xs : List Report) → All P xs → All P (before_cancel c xs)
  All-before_cancel none xs h = h
  All-before_cancel (some n) xs h = All-take n xs h

  All-arriving :
      (lost : ℕ → Bool) (n : ℕ) (xs : List Report) → All P xs → All P (arriving lost n xs)
  unfolding arriving
  All-arriving lost n [] h = tt
  All-arriving lost n (x ∷ xs) h = elim (Bool-cases (lost n)) [
    | inl e ↦ rw e (All-arriving lost (suc n) xs h.1)
    | inr e ↦ rw e (h.0, All-arriving lost (suc n) xs h.1)
  ]

  All-report_lines :
      (a : Adapter) (n : ℕ) (lines : List String)
      → ((k : ℕ) (t : String) (payload : Fields) (raw : String) → P (event k t payload raw))
      → All P (report_lines a n lines)
  unfolding report_lines
  All-report_lines a n [] h = tt
  All-report_lines a n (line ∷ lines) h = elim (Option-cases (a.parse_event line)) [
    | inl e ↦ rw (All, report_lines, e) (All-report_lines a n lines h)
    | inr (p, e) ↦
        rw (All, report_lines, e) (h n p.type p.payload line, All-report_lines a (suc n) lines h)
  ]

  -- A property of events holds of what is streamed.
  pub All-stream_output :
      (a : Adapter) (n : ℕ) (lines : List String)
      → ((k : ℕ) (t : String) (payload : Fields) (raw : String) → P (event k t payload raw))
      → All P (stream_output a n lines)
  unfolding stream_output
  All-stream_output a n lines h = All-report_lines a n (scanned lines) h

  -- What holds of events and of each status that an execution may send holds of all that it sends.
  All-execute :
      (s : Surroundings) (run : Fetched)
      → ((k : ℕ) (t : String) (payload : Fields) (raw : String) → P (event k t payload raw))
      → P (status "failed")
      → ((well : Bool) (n : ℕ) → P (status (final_status s well n)))
      → All P (execute s run)
  unfolding execute report_error attend
  All-execute s run ev fail final = whole (plan s run)
    where
      closed : (n : ℕ) (o : Option Bool) → All P (closing s n o)
      closed n none = tt
      closed n (some well) = (ev _ _ _ _, (final well _, tt))

      attended :
          (p : Plan) (o : Option String)
          → All P (elim o [ some e ↦ report_error (concat "启动失败: " e) | none ↦ attend s p ])
      attended p (some e) = (ev _ _ _ _, (fail, tt))
      attended p none =
          All-++ (stream_output p.adapter 2 (s.output (docker_args p))) _
            (All-stream_output p.adapter 2 (s.output (docker_args p)) ev)
            (closed (length (stream_output p.adapter 2 (s.output (docker_args p))))
              (s.exits (docker_args p)))

      whole :
          (r : Result Plan)
          → All P (elim r [
            | refuses e ↦ report_error e
            | gives p ↦ event 1 "run_started" (start_payload s p) "" ∷ started s p
          ])
      whole (refuses e) = (ev _ _ _ _, (fail, tt))
      whole (gives p) = (ev _ _ _ _, attended p (s.start (docker_args p)))

-- The statuses are those that end a run.
abbrev Final : Surroundings → String → Report → Type 0
Final s id r = Respects Ending (request_of s id r)

pub final_status-ends :
    (s : Surroundings) (well : Bool) (n : ℕ)
    → status_is_terminal (of_string (final_status s well n)) ≡ true
unfolding of_string
final_status-ends s true n = refl
final_status-ends s false n = elim (Bool-cases (is_cancelled_by s.cancelled n)) [
  | inl f ↦ rw f refl
  | inr f ↦ rw f refl
]

delivered-Final :
    (s : Surroundings) (run : Fetched)
    → All (Final s run.id) (before_cancel s.cancelled (execute s run))
unfolding request_of of_string
delivered-Final s run = All-before_cancel (Final s run.id) s.cancelled (execute s run) (
    All-execute (Final s run.id) s run (λ k t payload raw. tt) refl
      (λ well n. final_status-ends s well n))

Has-map :
    {A B : Type 0} (f : A → B) (P : A → Type 0) (Q : B → Type 0) (xs : List A) (y : B)
    → ((x : A) → P x → Q (f x))
    → All P xs
    → Has y (map f xs)
    → Q y
Has-map f P Q [] y h all m = elim m [ ]
Has-map f P Q (x ∷ xs) y h all (inl e) = subst Q (sym e) (h x all.0)
Has-map f P Q (x ∷ xs) y h all (inr m) = Has-map f P Q xs y h all.1 m

-- Every request that an execution sends writes, if it is a PATCH of a status, one that ends a run.
pub delivered-Respects :
    (s : Surroundings) (run : Fetched) (r : Request) → Has r (delivered s run) → Respects Ending r
unfolding delivered
delivered-Respects s run r m =
    Has-map (request_of s run.id) (Final s run.id) (Respects Ending)
      (arriving s.lost 0 (before_cancel s.cancelled (execute s run))) r (λ x h. h)
      (All-arriving (Final s run.id) s.lost 0 (before_cancel s.cancelled (execute s run))
        (delivered-Final s run))
      m
