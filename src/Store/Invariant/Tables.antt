-- ===== src/Store/Invariant/Tables.antt =====
-- The parts of the invariant under inserts, updates and deletes of each table.
use backitup.Prelude.{
  ℕ, ◌+◌, ◌<◌, ◌≡◌, ◌≢◌, ap, ◌∙◌, Bool, List, [], ◌∷◌, ◌++◌, All, select, update, ◌==◌, nat_eq,
  text_eq, arith, not, eq_of_==, Bool-cases, inl, inr,
}
use backitup.Prelude.Rows.{
  DistinctBy, All-snoc, All-mono, DistinctBy-snoc, any-update, any-append, any-select,
}
use backitup.Model.{Client}
use backitup.Store.Invariant.{Owned}

-- A row with the next id.
pub fresh-snoc {ℓ} :
    {A : Type ℓ} (id_of : A → ℕ) (rows : List A) (next : ℕ) (a : A)
    → id_of a ≡ next
    → All (λ x. id_of x < next) rows
    → DistinctBy id_of rows
    → All (λ x. id_of x < next + 1) (rows ++ a ∷ []) × DistinctBy id_of (rows ++ a ∷ [])
fresh-snoc id_of rows next a e fresh ids = (
  All-snoc (λ x. id_of x < next + 1) rows a
      (All-mono (λ x. id_of x < next) (λ x. id_of x < next + 1) rows (λ x h. omega arith) fresh)
      (omega arith),
  DistinctBy-snoc id_of rows a ids
      (All-mono (λ x. id_of x < next) (λ x. id_of x ≢ id_of a) rows (λ x h p. omega arith) fresh),
)

module _ {ℓ} {A : Type ℓ} (client_of : A → ℕ) where
  pub Owned-snoc_client :
      (clients : List Client) (c : Client) (rows : List A)
      → Owned clients client_of rows
      → Owned (clients ++ c ∷ []) client_of rows
  Owned-snoc_client clients c rows =
      All-mono _ _ rows λ r h. any-append (λ q. q.id == client_of r) clients (c ∷ []) h

  pub Owned-update_client :
      (p : Client → Bool) (f : Client → Client) (clients : List Client) (rows : List A)
      → ((c : Client) → (f c).id ≡ c.id)
      → Owned clients client_of rows
      → Owned (update p f clients) client_of rows
  Owned-update_client p f clients rows same = All-mono _ _ rows λ r h.
      any-update (λ q. q.id == client_of r) p f clients (λ c. ap (λ k. k == client_of r) (same c))
      ∙ h

  -- Deleting a client together with the rows that refer to it.
  pub Owned-delete_client :
      (id : ℕ) (clients : List Client) (rows : List A)
      → Owned clients client_of rows
      → Owned
          (select (λ c. not (c.id == id)) clients)
          client_of
          (select (λ r. not (client_of r == id)) rows)
  Owned-delete_client id clients [] h = tt
  Owned-delete_client id clients (r ∷ rows) h =
      let rest = Owned-delete_client id clients rows h.1 in
      elim (Bool-cases (client_of r == id)) [
        | inl gone ↦ rw gone rest
        | inr kept ↦ rw kept (
          any-select (λ q. q.id == client_of r) (λ c. not (c.id == id)) clients
                (λ c e. ground (arith, eq_of_== c.id (client_of r) e))
              ∙ h.0,
          rest,
        )
      ]
