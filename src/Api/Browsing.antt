-- ===== src/Api/Browsing.antt =====
-- internal/apiserver/task/handler.go, `List`: its pages, and a client that reads one after the other.
use mathlib.Core.List.{Permᴰ}
use agents_admin.Prelude.{
  ℕ, zero, suc, ◌+◌, ◌≤◌, ◌<◌, ℤ, pos, ltb, leb, true, false, String, Option, none, some, List,
  ◌++◌, ◌≡◌, refl, sym, ap, ◌∙◌, inl, inr, arith, length, take, drop, map?, if◌then◌else◌,
  Bool-cases, take-drop, drop-drop, length-drop, length-take_bound, length-take_some, take-all,
  Option-cases, subst, pos-+ℤ,
}
use agents_admin.Model.Task.{Task}
use agents_admin.Storage.World.{World, call, query, ◌>>=◌}
use agents_admin.Storage.Order.{length-sort_by}
use agents_admin.Storage.Listing.{
  Dialect, TaskFilter, newest, matches, matching, list_tasks_with_filter, counted, page_of,
}
use agents_admin.Storage.Ties.{Untied, newest-Permᴰ}
use agents_admin.Api.Reply.{Reply, error, ok}
use agents_admin.Api.Tasks.{Readers, ListQuery, Page, page_limit, filter_of, list}

page_limit-bounds : (z : ℤ) → (1 ≤ page_limit z) × (page_limit z ≤ 100)
unfolding page_limit
page_limit-bounds (pos n) = ground arith
page_limit-bounds _ = (omega arith, omega arith)

plus_zero : (n : ℕ) → n + 0 ≡ n
plus_zero n = omega arith

-- The page of some rows at an offset.
abbrev page_from : ℕ → ℕ → List Task → Page
page_from l n xs = record {
  tasks = take l (drop n xs);
  count = length (take l (drop n xs));
  total = length xs;
  has_more = ltb (n + length (take l (drop n xs))) (length xs);
}

module _ (d : Dialect) (r : Readers) (q : ListQuery) where
  abbrev page_at : ℕ → World → Page
  page_at n w = page_from (page_limit (r.atoi q.limit)) n (newest (matching d (filter_of r q) w.db))

  -- Where no statement fails and the database takes the offset, the answer is the page there.
  list-page :
      (n : ℕ) (w : World)
      → ((k : ℕ) → w.fails k ≡ false)
      → r.atoi q.offset ≡ pos n
      → d.offset (pos n) ≡ some n
      → newest (d.scan (filter_of r q) (matching d (filter_of r q) w.db))
        ≡ newest (matching d (filter_of r q) w.db)
      → (list d r q w).0 ≡ ok 200 (page_at n w)
  unfolding list list_tasks_with_filter query call filter_of
  list-page n w quiet at skips scans =
      rw
        (
          ◌>>=◌,
          quiet w.calls,
          at,
          quiet (w.calls + 1),
          page_of,
          skips,
          scans,
          sym (
              length-sort_by (λ a b. leb b.created_at a.created_at)
                (matching d (filter_of r q) w.db)),
          pos-+ℤ,
          plus_zero,
          plus_zero,
        )
        refl

-- What a client does with an answer for an offset: it goes on after the last row while there is more.
abbrev pub go_on : (ℕ → Option (List Task)) → ℕ → Reply Page → Option (List Task)
go_on rest n (error _ _) = none
go_on rest n (ok _ page) =
    if page.has_more then map? (λ l. page.tasks ++ l) (rest (n + page.count)) else some page.tasks

-- All that a client gets that starts at an offset, which `show` writes into the query; `none` is an
-- error, or no end within the fuel.
abbrev pub browse :
    Dialect → Readers → ListQuery → (ℕ → String) → World → ℕ → ℕ → Option (List Task)
browse d r q show w zero n = none
browse d r q show w (suc fuel) n =
    let rest = browse d r q show w fuel in
    go_on rest n (list d r (record q { offset = show n }) w).0

ltb-< : (a b : ℕ) → ltb a b ≡ true → a < b
ltb-< a b h = ground arith

not_ltb-≤ : (a b : ℕ) → ltb a b ≡ false → b ≤ a
not_ltb-≤ a b h = ground arith

go_on-page :
    (rest : ℕ → Option (List Task)) (l n : ℕ) (xs : List Task)
    → 1 ≤ l
    → ((m : ℕ) → n < m → m ≤ length xs → rest m ≡ some (drop m xs))
    → go_on rest n (ok 200 (page_from l n xs)) ≡ some (drop n xs)
go_on-page rest l n xs room known =
    elim (Bool-cases (ltb (n + length (take l (drop n xs))) (length xs))) [
      | inl more ↦
          let least = ltb-< (n + length (take l (drop n xs))) (length xs) more in
          let left = length-drop n xs in
          let one = length-take_some l (drop n xs) room (omega arith) in
          rw (more, known (n + length (take l (drop n xs))) (omega arith) (omega arith))
            (ap some (
              ap (λ k. take l (drop n xs) ++ k) (sym (drop-drop n (length (take l (drop n xs))) xs))
              ∙ take-drop l (drop n xs)))
      | inr last ↦
          let most = not_ltb-≤ (n + length (take l (drop n xs))) (length xs) last in
          let left = length-drop n xs in rw last (ap some (take-all l (drop n xs) (omega arith)))
    ]

module _ (d : Dialect) (r : Readers) (q : ListQuery) where
  -- The offset of a query is no part of the test on rows.
  matching-shown :
      (s : String) (w : World)
      → matching d (filter_of r (record q { offset = s })) w.db ≡ matching d (filter_of r q) w.db
  unfolding matching filter_of matches
  matching-shown s w = refl

  abbrev Limited : Reply Page → Type 0
  Limited (error _ _) = Unit
  Limited (ok _ page) =
      (length page.tasks ≤ page_limit (r.atoi q.limit)) × (page.count ≡ length page.tasks)

  list-Limited : (w : World) → Limited (list d r q w).0
  unfolding list list_tasks_with_filter query call filter_of
  list-Limited w = elim (Bool-cases (w.fails w.calls)) [
    | inl e ↦ rw (◌>>=◌, e) tt
    | inr e ↦ elim (Bool-cases (w.fails (w.calls + 1))) [
      | inl f ↦ rw (◌>>=◌, e, f) tt
      | inr f ↦ elim (Option-cases (d.offset (r.atoi q.offset))) [
        | inl o ↦ rw (◌>>=◌, e, f, page_of, o) tt
        | inr (n, o) ↦ rw (◌>>=◌, e, f, page_of, o) (length-take_bound _ _, refl)
      ]
    ]
  ]

  -- An answer that lists tasks, whatever failed, has at most as many as the limit, which is from 1
  -- to 100 whatever the query says, and counts them.
  pub list-bounds :
      (w : World) (status : ℕ) (page : Page)
      → (list d r q w).0 ≡ ok status page
      → (1 ≤ page_limit (r.atoi q.limit))
        × (page_limit (r.atoi q.limit) ≤ 100)
        × (length page.tasks ≤ page_limit (r.atoi q.limit))
        × (page.count ≡ length page.tasks)
  list-bounds w status page h =
      let (few, counted) = subst Limited h (list-Limited w) in
      let (least, most) = page_limit-bounds (r.atoi q.limit) in (least, most, few, counted)

module _ (d : Dialect) (r : Readers) (q : ListQuery) (show : ℕ → String) (w : World) where
  abbrev all_matching : List Task
  all_matching = newest (matching d (filter_of r q) w.db)

  module _ (quiet : (k : ℕ) → w.fails k ≡ false) (shown : (n : ℕ) → r.atoi (show n) ≡ pos n)
      (skips : (n : ℕ) → d.offset (pos n) ≡ some n)
      (scans : (f : TaskFilter) (xs : List Task) → Permᴰ xs (d.scan f xs))
      (untied : Untied (matching d (filter_of r q) w.db)) where
    -- The rows of a page come in the one order that they have.
    newest-scan :
        (s : String)
        → newest (
            d.scan
              (filter_of r (record q { offset = s }))
              (matching d (filter_of r (record q { offset = s })) w.db))
          ≡ newest (matching d (filter_of r (record q { offset = s })) w.db)
    newest-scan s =
        ap (λ xs. newest (d.scan (filter_of r (record q { offset = s })) xs))
          (matching-shown d r q s w)
        ∙ sym (
            newest-Permᴰ
              (scans (filter_of r (record q { offset = s })) (matching d (filter_of r q) w.db))
              untied)
        ∙ ap newest (sym (matching-shown d r q s w))

    browse-drop :
        (fuel n : ℕ)
        → length all_matching < fuel + n
        → n ≤ length all_matching
        → browse d r q show w fuel n ≡ some (drop n all_matching)
    browse-drop zero n enough inside = elim (absurd enough inside) [ ]
      where
        absurd : length all_matching < 0 + n → n ≤ length all_matching → ⊥
        absurd a b = omega arith
    browse-drop (suc fuel) n enough inside =
        ap (go_on (browse d r q show w fuel) n) (
          list-page d r (record q { offset = show n }) n w quiet (shown n) (skips n)
            (newest-scan (show n))
          ∙ ap (λ xs. ok 200 (page_from (page_limit (r.atoi q.limit)) n (newest xs)))
              (matching-shown d r q (show n) w))
        ∙ go_on-page (browse d r q show w fuel) (page_limit (r.atoi q.limit)) n all_matching
            (page_limit-bounds (r.atoi q.limit)).0
            (λ m later within. browse-drop fuel m (omega arith) within)

    -- A client that reads the first page, and the page after the last row for as long as there is
    -- more, when no statement fails, the database takes offsets, they are read as they are written,
    -- and no two tasks that match were created at one time, gets all tasks that match, newest first,
    -- within one page more than there are such tasks, in whatever order each statement reads the
    -- rows.
    pub browse-all :
        (fuel : ℕ)
        → length all_matching < fuel
        → browse d r q show w fuel 0 ≡ some (newest (matching d (filter_of r q) w.db))
    browse-all fuel enough = browse-drop fuel 0 (omega arith) (omega arith)
