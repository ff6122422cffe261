-- ===== src/Tests/Remotes.antt =====
-- Remotes, sizes and the dashboard.
use backitup.Prelude.{
  ℕ, ◌+◌, ◌/◌, ◌≤◌, ◌≡◌, refl, true, [], ◌∷◌, Text, Outcome, ok, Option, some, none, codes, arith,
  nat_eq, text_eq, count, length, select,
}
use mathlib.Core.List.{Memᴰ}
use backitup.Model.Backends.{b2_def, find_backend}
use backitup.Model.Backends.Section.{rclone_section, backend_lines}
use backitup.Model.Backends.Section.Laws.{has_value}
use backitup.Store.{Remote}
use backitup.Server.Remotes.{Site, valid_remote_name}
use backitup.Server.Remotes.Laws.{IsSafe}
use backitup.Server.Remotes.Safety.{AreSafe, delete, serve, serve-AreSafe}
use backitup.Server.Remotes.Lines.{count-rclone_section_safe}
use backitup.Server.Sizes.{scale_loop, human_bytes}
use backitup.Server.Sizes.Laws.{IsScale, human_bytes_lem}
use backitup.Model.{Health}
use backitup.Store.Clients.{list_clients}
use backitup.Server.Dashboard.{build_dashboard}
use backitup.Server.Dashboard.Laws.{by_problem, count_of, of_health, rows_of, build_dashboard_lem}
use backitup.Tests.Fixtures.{db, present}

abbrev remote : Remote
remote = record {
  id = 1;
  name = codes "b2";
  backend = codes "b2";
  config = (codes "account", codes "a\nb") ∷ (codes "key", []) ∷ [];
  created_at = 0;
}

abbrev reverse_text : Text → Outcome Text Text
reverse_text t = ok t

abbrev keep_json : Text → Option Text
keep_json t = none

remote-IsSafe : IsSafe reverse_text remote
unfolding valid_remote_name find_backend text_eq
remote-IsSafe = (
  refl,
  b2_def,
  refl,
  (
    (_, Memᴰ.head refl, refl, λ h. absurd (cc)),
    ((_, Memᴰ.tail (Memᴰ.head refl), refl, λ h. absurd (cc)), tt),
  ),
)

count-rclone_section_safe_example :
    count 10 (rclone_section keep_json remote)
    ≡ 1 + count 10 (backend_lines (codes "b2")) + length (select has_value remote.config)
count-rclone_section_safe_example =
    count-rclone_section_safe reverse_text keep_json remote remote-IsSafe

abbrev site : Site
site = record { db = record db { remotes = remote ∷ [] }; conf = [] }

serve-AreSafe_example :
    AreSafe reverse_text keep_json
      (codes "/conf")
      true
      (serve reverse_text keep_json (codes "/conf") true (delete (codes "b2")) site)
serve-AreSafe_example =
    serve-AreSafe reverse_text keep_json (codes "/conf") true (delete (codes "b2")) site
      ((tt, tt), (remote-IsSafe, tt))

abbrev no_quotient : ℕ → ℕ → Text
no_quotient b div = []

human_bytes_lem_example :
    ((t : Text) × (human_bytes no_quotient 5000000 ≡ some t))
    × (1024 ≤ 5000000
        → (r : ℕ × ℕ) × (scale_loop 6 (5000000 / 1024) 1024 0 ≡ some r) × IsScale 5000000 r)
human_bytes_lem_example = human_bytes_lem no_quotient 5000000 (omega arith)

build_dashboard_lem_example :
    let (summary, rows, cold) = build_dashboard no_quotient present db in
    (rows ≡ by_problem (rows_of no_quotient present db (list_clients db)))
    × (count_of Health.running summary ≡ length (of_health Health.running rows))
build_dashboard_lem_example = build_dashboard_lem no_quotient present db Health.running
