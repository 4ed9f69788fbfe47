-- ===== src/Api/Decisions.antt =====
-- What the handlers of approvals, interventions, actions and nodes leave as it is.
use agents_admin.Prelude.{
  ℕ, ◌+◌, true, false, String, str_eq, Option, none, some, ◌∷◌, ◌≡◌, refl, sym, ap, ◌∙◌, subst,
  arith, inl, inr, ◌⊎◌, Bool-cases, find?-update, find?-Has,
}
use agents_admin.Model.Hitl.{is_pending, is_expired, ApprovalRequest}
use agents_admin.Storage.World.{Db, World, ◌>>=◌, query, exec}
use agents_admin.Storage.Hitl.{find_approval, create_decision, update_approval_status}
use agents_admin.Api.Reply.{ok}
use agents_admin.Api.Approvals.{
  DecisionRequest, is_decision, new_decision, decided_status, decide_pending, decide_found,
  create_approval_decision,
}

-- The table shows an approval that may be decided at a time.
pub record Decidable (k : String) (now : ℕ) (db : Db) : Type 0 where
  pub approval : ApprovalRequest
  pub found : find_approval k db ≡ some approval
  pub open_still : is_pending approval.status ≡ true
  pub in_time : is_expired approval now ≡ false

abbrev Outcome : String → World → Db → Type 0
Outcome k w db = (db ≡ w.db) ⊎ Decidable k w.now w.db

module _ (id k : String) (req : DecisionRequest) where
  decide_found-guard :
      (w v : World) (o : Option (Option ApprovalRequest))
      → v.db ≡ w.db
      → v.now ≡ w.now
      → ((x : ApprovalRequest) → o ≡ some (some x) → find_approval k w.db ≡ some x)
      → Outcome k w (decide_found id k req o v).1.db
  decide_found-guard w v none same time found = inl same
  decide_found-guard w v (some none) same time found = inl same
  decide_found-guard w v (some (some x)) same time found = elim (Bool-cases (is_pending x.status)) [
    | inr e ↦ rw e (inl same)
    | inl e ↦ elim (Bool-cases (is_expired x v.now)) [
      | inl f ↦ rw (e, f) (inl same)
      | inr f ↦ inr (record {
        approval = x;
        found = found x refl;
        open_still = e;
        in_time = subst (λ t. is_expired x t ≡ false) time f;
      })
    ]
  ]

-- A decision changes the tables only if it is 'approve' or 'reject' and the approval request is
-- there, pending and not expired; otherwise the tables stay as they are, whichever statements fail.
pub decide-guard :
    (id k : String) (body : Option DecisionRequest) (w : World)
    → ((create_approval_decision id k body w).1.db ≡ w.db)
      ⊎ (Decidable k w.now w.db
          × ((req : DecisionRequest) × (body ≡ some req) × (is_decision req.decision ≡ true)))
unfolding create_approval_decision query
decide-guard id k none w = inl refl
decide-guard id k (some req) w = elim (Bool-cases (is_decision req.decision)) [
  | inr e ↦ rw e (inl refl)
  | inl e ↦ rw e (elim (Bool-cases (w.fails w.calls)) [
    | inl f ↦ rw (f, ◌>>=◌) (inl refl)
    | inr f ↦
        rw (f, ◌>>=◌)
          (join e (
            decide_found-guard id k req w (record w { calls = w.calls + 1 })
              (some (find_approval k w.db)) refl refl (λ x p. injected x p)))
  ])
]
  where
    injected :
        (x : ApprovalRequest)
        → some (find_approval k w.db) ≡ some (some x)
        → find_approval k w.db ≡ some x
    injected x p = cc

    join :
        {db : Db}
        → is_decision req.decision ≡ true
        → Outcome k w db
        → (db ≡ w.db)
          ⊎ (Decidable k w.now w.db
              × ((r : DecisionRequest) × (some req ≡ some r) × (is_decision r.decision ≡ true)))
    join e (inl p) = inl p
    join e (inr d) = inr (d, (req, refl, e))

-- Writing the outcome of a decision closes the request.
decided_not_pending : (s : String) → is_pending (decided_status s) ≡ false
decided_not_pending s = ground arith

-- The row of a request that was decided.
abbrev pub decided : String → ℕ → ApprovalRequest → ApprovalRequest
decided decision now a = record a { status = decided_status decision; resolved_at = some now }

id-find_approval :
    (k : String) (db : Db) (a : ApprovalRequest)
    → find_approval k db ≡ some a
    → str_eq a.id k ≡ true
unfolding find_approval
id-find_approval k db a h = (find?-Has (λ x. str_eq x.id k) a db.approvals h).1

module _ (id k : String) (req : DecisionRequest) (w : World) where
  -- What a decision does when no statement fails: the answer, the row and the log of decisions.
  pub record Decided : Type 0 where
    pub answer : (create_approval_decision id k (some req) w).0 ≡ ok 200 tt
    pub logged :
        (create_approval_decision id k (some req) w).1.db.decisions
        ≡ new_decision id k req w.now ∷ w.db.decisions
    pub row :
        (a : ApprovalRequest)
        → find_approval k w.db ≡ some a
        → find_approval k (create_approval_decision id k (some req) w).1.db
          ≡ some (decided req.decision w.now a)

  decide-runs :
      ((n : ℕ) → w.fails n ≡ false)
      → is_decision req.decision ≡ true
      → Decidable k w.now w.db
      → create_approval_decision id k (some req) w ≡ (
        ok 200 tt,
        record w {
          db =
              update_approval_status k
                (decided_status req.decision)
                w.now
                (create_decision (new_decision id k req w.now) w.now w.db);
          calls = w.calls + 1 + 1 + 1;
        },
      )
  unfolding create_approval_decision query exec decide_pending
  decide-runs sound valid d =
      rw
        (
          valid,
          sound w.calls,
          ◌>>=◌,
          d.found,
          d.open_still,
          d.in_time,
          sound (w.calls + 1),
          sound (w.calls + 1 + 1),
        )
        refl

  decided_row :
      (a : ApprovalRequest)
      → find_approval k w.db ≡ some a
      → find_approval k (
          update_approval_status k
            (decided_status req.decision)
            w.now
            (create_decision (new_decision id k req w.now) w.now w.db))
        ≡ some (decided req.decision w.now a)
  unfolding find_approval update_approval_status create_decision
  decided_row a h =
      find?-update (λ x. str_eq x.id k) (λ x. str_eq x.id k) (decided req.decision w.now)
        w.db.approvals (λ x. refl)
      ∙ rw (h, id-find_approval k w.db a h) refl

  -- A decision 'approve' or 'reject' on a request that is there, pending and not expired, when no
  -- statement fails, is answered by 200, is logged, and closes the request with its outcome.
  pub decide-Decided :
      ((n : ℕ) → w.fails n ≡ false)
      → is_decision req.decision ≡ true
      → Decidable k w.now w.db
      → Decided
  unfolding create_decision update_approval_status
  decide-Decided sound valid d = record {
    answer = ap (λ r. r.0) (decide-runs sound valid d);
    logged = ap (λ r. r.1.db.decisions) (decide-runs sound valid d);
    row = λ a h. ap (λ r. find_approval k r.1.db) (decide-runs sound valid d) ∙ decided_row a h;
  }

-- After a decision 'approve' or 'reject' on a request that was there, pending and not expired, of
-- which no statement failed, every further decision on the same request, at any time and whichever
-- of its statements fail, leaves the tables as they are.
pub decide-once :
    (id k : String) (req : DecisionRequest) (w : World)
    → ((n : ℕ) → w.fails n ≡ false)
    → is_decision req.decision ≡ true
    → Decidable k w.now w.db
    → (new : String) (body : Option DecisionRequest) (v : World)
    → v.db ≡ (create_approval_decision id k (some req) w).1.db
    → (create_approval_decision new k body v).1.db ≡ v.db
decide-once id k req w sound valid d new body v same = elim (decide-guard new k body v) [
  | inl e ↦ e
  | inr (again, r) ↦ elim (closed again) [ ]
]
  where
    row : find_approval k v.db ≡ some (decided req.decision w.now d.approval)
    row =
        ap (find_approval k) same ∙ (decide-Decided id k req w sound valid d).row d.approval d.found

    clash :
        (a : ApprovalRequest)
        → find_approval k v.db ≡ some a
        → is_pending a.status ≡ true
        → is_pending (decided_status req.decision) ≡ true
    clash a f p = subst (λ x. is_pending x.status ≡ true) (injected (sym f ∙ row)) p
      where
        injected :
            some a ≡ some (decided req.decision w.now d.approval)
            → a ≡ decided req.decision w.now d.approval
        injected e = cc

    closed : Decidable k v.now v.db → ⊥
    closed again =
        let open_again = clash again.approval again.found again.open_still in
        let shut = decided_not_pending req.decision in cc (open_again, shut)
