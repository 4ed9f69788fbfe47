-- ===== src/Machine/Rounds.antt =====
-- What the polls start, beside what runs and what returns.
use agents_admin.Prelude.{
  ℕ, suc, ◌+◌, ◌≤◌, sym, eq_iff, ◌||◌, ◌++◌, if◌then◌else◌, Bool, true, false, not, String, str_eq,
  eq_refl, none, some, List, [], ◌∷◌, ◌≡◌, refl, ap, ◌∙◌, inl, inr, arith, any, filter, Has,
  Bool-cases,
}
use agents_admin.Machine.Execution.{Fetched}
use agents_admin.Machine.Process.{
  Manager, is_running, enter, start_new, check_and_execute_runs, finish, cancel_run, obey,
  Happening, poll, return_of, directives, happen, all_started,
}

-- The keys of the map after one is entered, and after one is removed.
any-other :
    (k id : String) (ks : List String)
    → str_eq k id ≡ false
    → any (λ j. str_eq j id) (filter (λ j. not (str_eq j k)) ks) ≡ any (λ j. str_eq j id) ks
any-other k id [] h = refl
any-other k id (x ∷ xs) h = elim (Bool-cases (str_eq x k)) [
  | inl e ↦ rw (e, ap (λ z. str_eq z id) ((eq_iff x k).0 e) ∙ h) (any-other k id xs h)
  | inr e ↦ rw (e) (ap (λ b. str_eq x id || b) (any-other k id xs h))
]

any-same :
    (id : String) (ks : List String)
    → any (λ j. str_eq j id) (filter (λ j. not (str_eq j id)) ks) ≡ false
any-same id [] = refl
any-same id (x ∷ xs) = ground (arith, any-same id xs)

is_running-enter :
    (id k : String) (m : Manager) → is_running id (enter k m) ≡ (str_eq k id || is_running id m)
is_running-enter id k m = elim (Bool-cases (str_eq k id)) [
  | inl e ↦ rw (e) refl
  | inr e ↦ rw (e) (any-other k id m.running e)
]

is_running-finish : (id : String) (m : Manager) → is_running id (finish id m) ≡ false
unfolding finish
is_running-finish id m = any-same id m.running

is_running-finish_other :
    (id k : String) (m : Manager)
    → str_eq k id ≡ false
    → is_running id (finish k m) ≡ is_running id m
unfolding finish
is_running-finish_other id k m h = any-other k id m.running h

obey-running : (ids : List String) (m : Manager) → (obey ids m).running ≡ m.running
unfolding obey cancel_run
obey-running [] m = refl
obey-running (id ∷ ids) m = obey-running ids (cancel_run id m) ∙ same
  where
    same : (cancel_run id m).running ≡ m.running
    same = elim (Bool-cases (is_running id m)) [ inl e ↦ rw e refl | inr e ↦ rw e refl ]

-- A run keeps running through a poll.
start_new-keeps :
    (id : String) (runs : List Fetched) (m : Manager)
    → is_running id m ≡ true
    → is_running id (start_new runs m).0 ≡ true
unfolding start_new
start_new-keeps id [] m h = h
start_new-keeps id (run ∷ runs) m h = elim (Bool-cases (is_running run.id m)) [
  | inl e ↦ rw e (start_new-keeps id runs m h)
  | inr e ↦ rw e (start_new-keeps id runs (enter run.id m) entered)
]
  where
    entered : is_running id (enter run.id m) ≡ true
    entered = is_running-enter id run.id m ∙ ground (arith, h)

or_false : (a b : Bool) → (a || b) ≡ false → b ≡ false
or_false a b h = ground arith

-- What a poll starts was fetched, and was not running.
start_new-from :
    (run : Fetched) (runs : List Fetched) (m : Manager)
    → Has run (start_new runs m).1
    → Has run runs × (is_running run.id m ≡ false)
unfolding start_new
start_new-from run [] m = λ h. elim h [ ]
start_new-from run (x ∷ xs) m = elim (Bool-cases (is_running x.id m)) [
  | inl e ↦ rw e (λ h. let (from, new) = start_new-from run xs m h in (inr from, new))
  | inr e ↦ rw e (λ h. elim h [
    | inl same ↦ (inl same, ap (λ z. is_running z.id m) same ∙ e)
    | inr later ↦
        let (from, new) = start_new-from run xs (enter x.id m) later in (inr from, outside new)
  ])
]
  where
    outside : is_running run.id (enter x.id m) ≡ false → is_running run.id m ≡ false
    outside new =
        or_false (str_eq x.id run.id) (is_running run.id m)
          (sym (is_running-enter run.id x.id m) ∙ new)

start_new-all :
    (run : Fetched) (runs : List Fetched) (m : Manager)
    → Has run runs
    → is_running run.id (start_new runs m).0 ≡ true
unfolding start_new
start_new-all run (x ∷ xs) m (inl same) = elim (Bool-cases (is_running x.id m)) [
  | inl e ↦ rw e (start_new-keeps run.id xs m (ap (λ z. is_running z.id m) same ∙ e))
  | inr e ↦ rw e (start_new-keeps run.id xs (enter x.id m) (entered same))
]
  where
    entered : run ≡ x → is_running run.id (enter x.id m) ≡ true
    entered same' = rw (same', eq_refl x.id) refl
start_new-all run (x ∷ xs) m (inr later) = elim (Bool-cases (is_running x.id m)) [
  | inl e ↦ rw e (start_new-all run xs m later)
  | inr e ↦ rw e (start_new-all run xs (enter x.id m) later)
]
start_new-all run [] m h = elim h [ ]

-- A run that a poll starts was fetched and was not running, and after the poll all runs that were
-- fetched are running.
pub check_and_execute_runs-starts :
    (runs : List Fetched) (m : Manager) (run : Fetched)
    → (Has run (check_and_execute_runs (some runs) m).1
        → Has run runs × (is_running run.id m ≡ false))
      × (Has run runs → is_running run.id (check_and_execute_runs (some runs) m).0 ≡ true)
unfolding check_and_execute_runs
check_and_execute_runs-starts runs m run = (start_new-from run runs m, start_new-all run runs m)

-- How many executions of a run are among some, and how many executions of it return.
abbrev pub starts_of : String → List Fetched → ℕ
starts_of id [] = 0
starts_of id (run ∷ runs) =
    let rest = starts_of id runs in if str_eq run.id id then suc rest else rest

abbrev pub returns_of : String → List Happening → ℕ
returns_of id [] = 0
returns_of id (return_of k ∷ hs) =
    let rest = returns_of id hs in if str_eq k id then suc rest else rest
returns_of id (_ ∷ hs) = returns_of id hs

-- The executions of a run that are going on, as the map has it.
abbrev pub going_on : String → Manager → ℕ
going_on id m = if is_running id m then 1 else 0

starts_of-++ :
    (id : String) (xs ys : List Fetched)
    → starts_of id (xs ++ ys) ≡ starts_of id xs + starts_of id ys
starts_of-++ id [] ys = omega arith
starts_of-++ id (x ∷ xs) ys = ground (arith, starts_of-++ id xs ys)

going_on-is :
    (id : String) (m : Manager) (b : Bool)
    → is_running id m ≡ b
    → going_on id m ≡ (if b then 1 else 0)
going_on-is id m b h = rw (h) refl

going_on-same :
    (id : String) (m n : Manager)
    → is_running id m ≡ is_running id n
    → going_on id m ≡ going_on id n
going_on-same id m n h = rw (h) refl

going_on_bound : (id : String) (m : Manager) → going_on id m ≤ 1
going_on_bound id m = ground arith

start_new-going_on :
    (id : String) (runs : List Fetched) (m : Manager)
    → starts_of id (start_new runs m).1 + going_on id m ≡ going_on id (start_new runs m).0
unfolding start_new
start_new-going_on id [] m = omega arith
start_new-going_on id (run ∷ runs) m = elim (Bool-cases (is_running run.id m)) [
  | inl e ↦ rw e (start_new-going_on id runs m)
  | inr e ↦ rw e (
      let rest = start_new-going_on id runs (enter run.id m) in
      elim (Bool-cases (str_eq run.id id)) [
        | inl g ↦
            let now =
              going_on-is id (enter run.id m) true (is_running-enter id run.id m ∙ left_true g) in
            let before =
              going_on-is id m false
                (ap (λ z. is_running z m) (sym ((eq_iff run.id id).0 g)) ∙ e) in
            rw (g) (omega arith)
        | inr g ↦
            let same =
              going_on-same id (enter run.id m) m (is_running-enter id run.id m ∙ left_false g) in
            rw (g) (omega arith)
      ])
]
  where
    left_true : str_eq run.id id ≡ true → (str_eq run.id id || is_running id m) ≡ true
    left_true g = rw (g) refl

    left_false : str_eq run.id id ≡ false → (str_eq run.id id || is_running id m) ≡ is_running id m
    left_false g = rw (g) refl

-- From any state on, the executions of a run that a sequence of polls, returns and directives starts
-- are, together with the one that may be going on before, at most one more than those that return.
pub all_started-returns :
    (id : String) (hs : List Happening) (m : Manager)
    → starts_of id (all_started hs m) + going_on id m ≤ returns_of id hs + 1
unfolding all_started happen check_and_execute_runs
all_started-returns id [] m = let few = going_on_bound id m in omega arith
all_started-returns id (poll none ∷ hs) m = all_started-returns id hs m
all_started-returns id (poll (some runs) ∷ hs) m =
    let later = all_started-returns id hs (start_new runs m).0 in
    let now = start_new-going_on id runs m in
    let both = starts_of-++ id (start_new runs m).1 (all_started hs (start_new runs m).0) in
    omega arith
all_started-returns id (return_of k ∷ hs) m =
    let later = all_started-returns id hs (finish k m) in
    let few = going_on_bound id m in
    elim (Bool-cases (str_eq k id)) [
      | inl e ↦ rw (e) (omega arith)
      | inr e ↦
          let same = going_on-same id (finish k m) m (is_running-finish_other id k m e) in
          rw (e) (omega arith)
    ]
all_started-returns id (directives ids ∷ hs) m =
    let later = all_started-returns id hs (obey ids m) in
    let same =
      going_on-same id (obey ids m) m (ap (λ ks. any (λ j. str_eq j id) ks) (obey-running ids m)) in
    omega arith
