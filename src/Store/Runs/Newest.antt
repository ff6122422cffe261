-- ===== src/Store/Runs/Newest.antt =====
-- The two ways to read the last run of a client.
use backitup.Prelude.{
  ℕ, ◌≡◌, refl, sym, ap, subst, ◌∙◌, ◌⊎◌, inl, inr, true, false, List, [], ◌∷◌, Option, none, some,
  All, suc, take, select, sort_by, sort_by-All, arith, ◌==◌, nat_eq, if◌then◌else◌, Bool-cases,
}
use backitup.Prelude.Sorting.Laws.{sort_by-cases}
use backitup.Clock.Stamp.{stamp_lt}
use backitup.Clock.Stamp.Laws.{stamp_lt_irrefl, stamp_lt_trans}
use backitup.Model.{Run}
use backitup.Store.{Db}
use backitup.Store.Runs.{
  newest_runs, first, latest_run, latest_of, latest_run_all_clients, list_runs,
}

-- The stored texts of two starts differ.
abbrev IsApart : Run → Run → Type 0
IsApart q r =
    (stamp_lt q.started_at r.started_at ≡ true) ⊎ (stamp_lt r.started_at q.started_at ≡ true)

abbrev pub AreApart : List Run → Type 0
AreApart [] = Unit
AreApart (r ∷ rs) = All (IsApart r) rs × AreApart rs

abbrev pub own_runs : ℕ → List Run → List Run
own_runs client_id rs = select (λ r. r.client_id == client_id) rs

abbrev sorted : List Run → List Run
sorted rs = sort_by (λ a b. stamp_lt b.started_at a.started_at) rs

-- The later of two.
abbrev later : Option Run → Option Run → Option Run
later none m = m
later (some b) none = some b
later (some b) (some m) = if stamp_lt m.started_at b.started_at then some b else some m

later-none : (m : Option Run) → later m none ≡ m
later-none none = refl
later-none (some b) = refl

stamp_lt_asym : (a b : ℕ) → stamp_lt a b ≡ true → stamp_lt b a ≡ false
stamp_lt_asym a b h = elim (Bool-cases (stamp_lt b a)) [
  | inl e ↦
      let cycle = stamp_lt_trans a b a h e in
      let still = stamp_lt_irrefl a in absurd (ground (arith, cycle, still))
  | inr e ↦ e
]

first-All : (P : Run → Type 0) (rs : List Run) → All P rs → (m : Run) → first rs ≡ some m → P m
first-All P [] h m e = absurd (ground (arith, e))
first-All P (r ∷ rs) h m e = let same : r ≡ m = cc in subst P same h.0

-- A third run, of which the second is apart.
later_assoc :
    (best : Option Run) (r m : Run)
    → IsApart r m
    → later (later best (some r)) (some m)
      ≡ later best (if stamp_lt r.started_at m.started_at then some m else some r)
later_assoc none r m (inl e) =
    let back = stamp_lt_asym r.started_at m.started_at e in rw (e, back) refl
later_assoc none r m (inr e) =
    let back = stamp_lt_asym m.started_at r.started_at e in rw (e, back) refl
later_assoc (some b) r m (inl e) =
    let back = stamp_lt_asym r.started_at m.started_at e in
    elim (Bool-cases (stamp_lt r.started_at b.started_at)) [
      | inl f ↦ rw (e, f) refl
      | inr f ↦
          let up = stamp_lt_trans r.started_at m.started_at b.started_at e in
          rw (e, f, back) (ground (arith, up, f))
    ]
later_assoc (some b) r m (inr e) =
    let back = stamp_lt_asym m.started_at r.started_at e in
    elim (Bool-cases (stamp_lt r.started_at b.started_at)) [
      | inl f ↦
          let up = stamp_lt_trans m.started_at r.started_at b.started_at e f in
          rw (back, f, up) refl
      | inr f ↦ rw (back, f, e) refl
    ]

-- The first of the sorted runs is the later of the new one and the first of the others.
first-sorted :
    (r : Run) (rs : List Run) (best : Option Run)
    → All (IsApart r) rs
    → later (later best (some r)) (first (sorted rs)) ≡ later best (first (sorted (r ∷ rs)))
first-sorted r rs best apart =
    elim (sort_by-cases (λ a b. stamp_lt b.started_at a.started_at) r rs) [
      | inl (q, p) ↦ rw (q, p) (later-none (later best (some r)))
      | inr (m, ys, zs, q, c) ↦
          let seen : first (sorted rs) ≡ some m = rw q refl in
          let far : IsApart r m =
            first-All (IsApart r) (sorted rs)
              (sort_by-All (IsApart r) (λ a b. stamp_lt b.started_at a.started_at) rs apart) m
              seen in
          let picked : Option Run = if stamp_lt r.started_at m.started_at then some m else some r in
          elim c [
            | inl (e, p) ↦
                let chosen : picked ≡ some m = rw e refl in
                rw (q, p) (later_assoc best r m far ∙ ap (later best) chosen)
            | inr (e, p) ↦
                let chosen : picked ≡ some r = rw e refl in
                rw (q, p) (later_assoc best r m far ∙ ap (later best) chosen)
          ]
    ]

own_cons :
    (client_id : ℕ) (r : Run) (rs : List Run)
    → (r.client_id == client_id) ≡ true
    → own_runs client_id (r ∷ rs) ≡ r ∷ own_runs client_id rs
own_cons client_id r rs e = rw e refl

own_skip :
    (client_id : ℕ) (r : Run) (rs : List Run)
    → (r.client_id == client_id) ≡ false
    → own_runs client_id (r ∷ rs) ≡ own_runs client_id rs
own_skip client_id r rs e = rw e refl

latest_of-cons :
    (client_id : ℕ) (best : Option Run) (r : Run) (rs : List Run)
    → (r.client_id == client_id) ≡ true
    → latest_of client_id best (r ∷ rs) ≡ latest_of client_id (later best (some r)) rs
unfolding latest_of
latest_of-cons client_id none r rs e = rw e refl
latest_of-cons client_id (some b) r rs e = rw e refl

latest_of-later :
    (client_id : ℕ) (best : Option Run) (rs : List Run)
    → AreApart (own_runs client_id rs)
    → latest_of client_id best rs ≡ later best (first (sorted (own_runs client_id rs)))
unfolding latest_of sort_by
latest_of-later client_id best [] h = sym (later-none best)
latest_of-later client_id best (r ∷ rs) h = elim (Bool-cases (r.client_id == client_id)) [
  | inl e ↦
      let (far, apart) = subst AreApart (own_cons client_id r rs e) h in
      latest_of-cons client_id best r rs e
      ∙ latest_of-later client_id (later best (some r)) rs apart
      ∙ first-sorted r (own_runs client_id rs) best far
      ∙ sym (ap (λ xs. later best (first (sorted xs))) (own_cons client_id r rs e))
  | inr e ↦
      let apart = subst AreApart (own_skip client_id r rs e) h in
      rw e (latest_of-later client_id best rs apart)
]

-- Where the stored starts of a client's runs differ, the query for one client and the query for all
-- clients give the same last run.
pub latest_run_all_clients-eq-latest_run :
    (d : Db) (client_id : ℕ)
    → AreApart (own_runs client_id d.runs)
    → latest_run_all_clients d client_id ≡ latest_run client_id d
unfolding latest_run_all_clients latest_run newest_runs
latest_run_all_clients-eq-latest_run d client_id h = latest_of-later client_id none d.runs h

first-take : (n : ℕ) (rs : List Run) → first (take (suc n) rs) ≡ first rs
first-take n [] = refl
first-take n (r ∷ rs) = refl

-- The first of the listed runs is the last run.
pub first-list_runs :
    (client_id n : ℕ) (d : Db) → first (list_runs client_id (suc n) d) ≡ latest_run client_id d
unfolding list_runs latest_run newest_runs
first-list_runs client_id n d = first-take n (sorted (own_runs client_id d.runs))
