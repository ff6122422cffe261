-- ===== src/Server/Dashboard/Laws.antt =====
-- The rows are the clients, the problems first, and the summary counts them.
use backitup.Prelude.{
  ℕ, ◌+◌, ◌<◌, ◌≡◌, refl, sym, ◌∙◌, Bool, true, false, ltb, All, sort_by, List, [], ◌∷◌, ◌++◌, Text,
  map, select, length, arith, ◌==◌, nat_eq, append_nil, snoc-append, Bool-cases, inl, inr,
  if◌then◌else◌,
}
use backitup.Prelude.Sorting.Laws.{select-sort_by, sort_by-buckets}
use backitup.Model.{Client, Health}
use backitup.Store.{Db}
use backitup.Store.Clients.{list_clients}
use backitup.Server.Dashboard.{
  ClientRow, Summary, health_rank, health_of, row_of, count_health, none_yet, rows_loop,
  build_dashboard,
}

abbrev rank_of : ClientRow → ℕ
rank_of r = health_rank r.health

-- The count of a health in the summary.
abbrev pub count_of : Health → Summary → ℕ
count_of Health.ok s = s.ok
count_of Health.stale s = s.stale
count_of Health.failed s = s.failed
count_of Health.never s = s.never
count_of Health.running s = s.running

abbrev same_health : Health → Health → Bool
same_health Health.ok Health.ok = true
same_health Health.stale Health.stale = true
same_health Health.failed Health.failed = true
same_health Health.never Health.never = true
same_health Health.running Health.running = true
same_health _ _ = false

-- The rows of a health.
abbrev pub of_health : Health → List ClientRow → List ClientRow
of_health h rows = select (λ r. same_health r.health h) rows

-- The order of the page.
abbrev pub by_problem : List ClientRow → List ClientRow
by_problem rows =
    of_health Health.failed rows
    ++ (of_health Health.stale rows
        ++ (of_health Health.never rows
            ++ (of_health Health.running rows ++ of_health Health.ok rows)))

rank_test : (h k : Health) → (health_rank k == health_rank h) ≡ same_health k h
unfolding health_rank nat_eq
rank_test Health.ok Health.ok = refl
rank_test Health.ok Health.stale = refl
rank_test Health.ok Health.failed = refl
rank_test Health.ok Health.never = refl
rank_test Health.ok Health.running = refl
rank_test Health.stale Health.ok = refl
rank_test Health.stale Health.stale = refl
rank_test Health.stale Health.failed = refl
rank_test Health.stale Health.never = refl
rank_test Health.stale Health.running = refl
rank_test Health.failed Health.ok = refl
rank_test Health.failed Health.stale = refl
rank_test Health.failed Health.failed = refl
rank_test Health.failed Health.never = refl
rank_test Health.failed Health.running = refl
rank_test Health.never Health.ok = refl
rank_test Health.never Health.stale = refl
rank_test Health.never Health.failed = refl
rank_test Health.never Health.never = refl
rank_test Health.never Health.running = refl
rank_test Health.running Health.ok = refl
rank_test Health.running Health.stale = refl
rank_test Health.running Health.failed = refl
rank_test Health.running Health.never = refl
rank_test Health.running Health.running = refl

rank_bound : (h : Health) → health_rank h < 5
unfolding health_rank
rank_bound Health.ok = omega arith
rank_bound Health.stale = omega arith
rank_bound Health.failed = omega arith
rank_bound Health.never = omega arith
rank_bound Health.running = omega arith

select-rank :
    (h : Health) (rows : List ClientRow)
    → select (λ r. rank_of r == health_rank h) rows ≡ of_health h rows
select-rank h [] = refl
select-rank h (r ∷ rows) = rw (rank_test h r.health, select-rank h rows) refl

ranks_below : (rows : List ClientRow) → All (λ r. rank_of r < 5) rows
ranks_below [] = tt
ranks_below (r ∷ rows) = (rank_bound r.health, ranks_below rows)

-- The sort of the page.
sorted-by_problem :
    (rows : List ClientRow)
    → sort_by (λ a b. ltb (health_rank a.health) (health_rank b.health)) rows ≡ by_problem rows
unfolding health_rank
sorted-by_problem rows =
    sort_by-buckets rank_of 5 rows (ranks_below rows)
    ∙ rw
        (
          select-rank Health.failed rows,
          select-rank Health.stale rows,
          select-rank Health.never rows,
          select-rank Health.running rows,
          select-rank Health.ok rows,
        )
        (rw (append_nil (of_health Health.ok rows)) refl)

module _ (quotient : ℕ → ℕ → Text) (now : ℕ) (d : Db) where
  abbrev pub rows_of : List Client → List ClientRow
  rows_of cs = map (row_of quotient now d) cs

  rows_loop-rows :
      (cs : List Client) (s : Summary) (rows : List ClientRow)
      → (rows_loop quotient now d cs (s, rows)).1 ≡ rows ++ rows_of cs
  unfolding rows_loop
  rows_loop-rows [] s rows = sym (append_nil rows)
  rows_loop-rows (c ∷ cs) s rows =
      rows_loop-rows cs (count_health quotient (health_of quotient now d c) s)
        (rows ++ row_of quotient now d c ∷ [])
      ∙ snoc-append rows (row_of quotient now d c) (rows_of cs)

  count_of-count_health :
      (h k : Health) (s : Summary)
      → count_of h (count_health quotient k s) ≡ count_of h s + (if same_health k h then 1 else 0)
  unfolding count_health
  count_of-count_health Health.ok Health.ok s = omega arith
  count_of-count_health Health.ok Health.stale s = omega arith
  count_of-count_health Health.ok Health.failed s = omega arith
  count_of-count_health Health.ok Health.never s = omega arith
  count_of-count_health Health.ok Health.running s = omega arith
  count_of-count_health Health.stale Health.ok s = omega arith
  count_of-count_health Health.stale Health.stale s = omega arith
  count_of-count_health Health.stale Health.failed s = omega arith
  count_of-count_health Health.stale Health.never s = omega arith
  count_of-count_health Health.stale Health.running s = omega arith
  count_of-count_health Health.failed Health.ok s = omega arith
  count_of-count_health Health.failed Health.stale s = omega arith
  count_of-count_health Health.failed Health.failed s = omega arith
  count_of-count_health Health.failed Health.never s = omega arith
  count_of-count_health Health.failed Health.running s = omega arith
  count_of-count_health Health.never Health.ok s = omega arith
  count_of-count_health Health.never Health.stale s = omega arith
  count_of-count_health Health.never Health.failed s = omega arith
  count_of-count_health Health.never Health.never s = omega arith
  count_of-count_health Health.never Health.running s = omega arith
  count_of-count_health Health.running Health.ok s = omega arith
  count_of-count_health Health.running Health.stale s = omega arith
  count_of-count_health Health.running Health.failed s = omega arith
  count_of-count_health Health.running Health.never s = omega arith
  count_of-count_health Health.running Health.running s = omega arith

  count_of-none_yet : (h : Health) → count_of h (none_yet quotient) ≡ 0
  count_of-none_yet Health.ok = refl
  count_of-none_yet Health.stale = refl
  count_of-none_yet Health.failed = refl
  count_of-none_yet Health.never = refl
  count_of-none_yet Health.running = refl

  rows_loop-count_of :
      (h : Health) (cs : List Client) (s : Summary) (rows : List ClientRow)
      → count_of h (rows_loop quotient now d cs (s, rows)).0
        ≡ count_of h s + length (of_health h (rows_of cs))
  unfolding rows_loop row_of
  rows_loop-count_of h [] s rows = omega arith
  rows_loop-count_of h (c ∷ cs) s rows =
      rows_loop-count_of h cs (count_health quotient (health_of quotient now d c) s)
        (rows ++ row_of quotient now d c ∷ [])
      ∙ rw (count_of-count_health h (health_of quotient now d c) s)
          (elim (Bool-cases (same_health (health_of quotient now d c) h)) [
            | inl e ↦ rw e (omega arith)
            | inr e ↦ rw e (omega arith)
          ])

-- The rows are those of the clients, first those whose backup failed, then the stale ones, those that
-- never ran, the running ones and those that are well; within each of the five they are in the order of
-- the listed clients; and the summary counts of each health its rows.
pub build_dashboard_lem :
    (quotient : ℕ → ℕ → Text) (now : ℕ) (d : Db) (h : Health)
    → let (summary, rows, cold) = build_dashboard quotient now d in
      (rows ≡ by_problem (rows_of quotient now d (list_clients d)))
      × (count_of h summary ≡ length (of_health h rows))
unfolding build_dashboard
build_dashboard_lem quotient now d h =
    let rows = rows_loop-rows quotient now d (list_clients d) (none_yet quotient) [] in
    let counts = rows_loop-count_of quotient now d h (list_clients d) (none_yet quotient) [] in
    let sorted = rows_of quotient now d (list_clients d) in
    let kept : of_health h
          (sort_by (λ a b. ltb (health_rank a.health) (health_rank b.health)) sorted)
        ≡ of_health h sorted =
      sym (select-rank h _)
      ∙ select-sort_by rank_of (health_rank h) sorted
      ∙ select-rank h sorted in
    rw rows (
      sorted-by_problem sorted,
      counts ∙ rw (count_of-none_yet quotient now d h, kept) (omega arith),
    )
