-- ===== src/Scheduler/Optimal.antt =====
-- What the strategies that balance the load choose, and what labels match.
use agents_admin.Prelude.{
  negsuc, ◌≤ℤ◌, true, ◌&&◌, String, eq_iff, eq_refl, ◌↔◌, none, some, List, [], ◌∷◌, ◌≡◌, refl,
  arith, Has, filter-Has, inl, inr, Option-cases,
}
use agents_admin.Json.{map_get}
use agents_admin.Model.Node.{Node}
use agents_admin.Scheduler.Strategy.{
  ScheduleRequest, available, has_capacity, select_load_balance, select_label_match, among_matched,
  matched_nodes, match_labels, labels_cover, node_labels, task_labels, select_by_load_balance,
}
use agents_admin.Scheduler.Balance.{best_loop-max}
use agents_admin.Scheduler.Selection.{IsEligible}

module _ (req : ScheduleRequest) (n m : Node) where
  -- No candidate with room has more room than the node that the load-balancing strategy chooses.
  pub select_load_balance-max :
      (select_load_balance req).0 ≡ some n
      → IsEligible req m
      → available req.node_running m ≤ℤ available req.node_running n
  unfolding select_load_balance
  select_load_balance-max h eligible =
      best_loop-max (has_capacity req.node_running) req.node_running req.candidate_nodes none
        (negsuc 0) n m tt (ground arith) eligible.candidate eligible.room

  among_matched-max :
      (ns : List Node)
      → (among_matched true req.node_running ns).0 ≡ some n
      → Has m ns
      → available req.node_running m ≤ℤ available req.node_running n
  unfolding among_matched select_by_load_balance
  among_matched-max [] h k = elim k [ ]
  among_matched-max (a ∷ []) h k = ground arith
  among_matched-max (a ∷ b ∷ ns) h k =
      best_loop-max (λ x. true) req.node_running (a ∷ b ∷ ns) none (negsuc 0) n m tt h k refl

  -- No candidate with room whose labels match those of the task has more room than the node that the
  -- label strategy chooses when it balances the load.
  pub select_label_match-max :
      (select_label_match true req).0 ≡ some n
      → IsEligible req m
      → match_labels m (task_labels req) ≡ true
      → available req.node_running m ≤ℤ available req.node_running n
  unfolding select_label_match matched_nodes
  select_label_match-max h eligible matched = among_matched-max _ h (
      filter-Has (λ x. match_labels x (task_labels req) && has_capacity req.node_running x) m
        req.candidate_nodes eligible.candidate (ground (arith, eligible.room)))

-- A node wears a label: its labels parse, and give the value under the name.
abbrev pub Wears : Node → String → String → Type 0
Wears n k v =
    (have : List (String × String)) × (node_labels n ≡ some have) × (map_get k have ≡ some v)

labels_cover-Has :
    (have wanted : List (String × String)) (k v : String)
    → labels_cover have wanted ≡ true
    → Has (k, v) wanted
    → map_get k have ≡ some v
unfolding labels_cover
labels_cover-Has have [] k v h m = elim m [ ]
labels_cover-Has have ((j, w) ∷ wanted) k v h (inr m) =
    labels_cover-Has have wanted k v (ground arith) m
labels_cover-Has have ((j, w) ∷ wanted) k v h (inl e) = elim (Option-cases (map_get j have)) [
  | inl f ↦ ground arith
  | inr (x, f) ↦ ground (arith, eq_iff x w)
]

cover-all :
    (n : Node) (have wanted : List (String × String))
    → node_labels n ≡ some have
    → ((k v : String) → Has (k, v) wanted → Wears n k v)
    → labels_cover have wanted ≡ true
unfolding labels_cover
cover-all n have [] e worn = refl
cover-all n have ((j, w) ∷ wanted) e worn =
    let (h, f, g) = worn j w (inl refl) in
    let rest = cover-all n have wanted e (λ k v m. worn k v (inr m)) in
    rw (own h f g, eq_refl w, rest) refl
  where
    own :
        (h : List (String × String))
        → node_labels n ≡ some h
        → map_get j h ≡ some w
        → map_get j have ≡ some w
    own h f g = cc

-- The labels of a node match those that a task wants exactly if the node wears every wanted label.
pub match_labels-Wears :
    (n : Node) (wanted : List (String × String))
    → (match_labels n wanted ≡ true) ↔ ((k v : String) → Has (k, v) wanted → Wears n k v)
unfolding match_labels
match_labels-Wears n [] = (λ h k v m. elim m [ ], λ h. refl)
match_labels-Wears n (l ∷ wanted) = (
  λ h k v m. elim (Option-cases (node_labels n)) [
    | inl e ↦ ground arith
    | inr (have, e) ↦ (have, e, labels_cover-Has have (l ∷ wanted) k v (ground arith) m)
  ],
  λ worn.
      let (have, e, g) = worn l.0 l.1 (inl refl) in
      rw (match_labels, e) (cover-all n have (l ∷ wanted) e worn),
)
