-- ===== src/Server/Clients/Page/Agreement.antt =====
-- The page of a client and the dashboard.
use backitup.Prelude.{ℕ, ◌≡◌, refl, sym, ◌∙◌, List, Text, Outcome, Option}
use backitup.Model.{Client, Mode}
use backitup.Store.{Db}
use backitup.Store.Runs.{first, list_runs, latest_run_all_clients}
use backitup.Store.Runs.Newest.{
  AreApart, own_runs, first-list_runs, latest_run_all_clients-eq-latest_run,
}
use backitup.Lifecycle.{Snapshot}
use backitup.Server.Dashboard.{row_of, health_of}
use backitup.Server.Clients.Page.{page_of}

-- Where the stored starts of a client's runs differ, its page and its row on the dashboard show the
-- same health, label, icon, age of the last backup and size.
pub page_of-row_of :
    (quotient : ℕ → ℕ → Text) (list_mode : Mode → Option (Text → Outcome Text (List Snapshot)))
    (base_dir : Text) (now : ℕ) (d : Db) (c : Client)
    → AreApart (own_runs c.id d.runs)
    → let page = page_of quotient list_mode base_dir now d c in
      let row = row_of quotient now d c in
      (page.health ≡ row.health)
      × (page.health_label ≡ row.label)
      × (page.icon ≡ row.icon)
      × (page.last_backup_age ≡ row.last_backup)
      × (page.last_backup_size ≡ row.size)
unfolding page_of row_of health_of
page_of-row_of quotient list_mode base_dir now d c h =
    let same : first (list_runs c.id 20 d) ≡ latest_run_all_clients d c.id =
      first-list_runs c.id 19 d ∙ sym (latest_run_all_clients-eq-latest_run d c.id h) in
    rw same (refl, refl, refl, refl, refl)
