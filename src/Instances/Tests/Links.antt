-- ===== src/Instances/Tests/Links.antt =====
-- Paths of the dashboard.
use vanpilot.Prelude.{ℕ, ◌≡◌, refl, [], List, true, false}
use vanpilot.Prelude.Text.{codes, same_codes}
use vanpilot.Instances.Dashboard.{
  Route, route, named, after_prefix, match_group, name_part, ends_by, instances_path, api_logs_path,
  logs_path,
}
use vanpilot.Instances.Dashboard.Laws.{link, route_links}

abbrev van : List ℕ
van = codes "van-1"

route_links_example :
    (route (link logs_path van []) ≡ Route.log_page van)
    × (route (link logs_path van (codes "/stream")) ≡ Route.log_stream van)
    × (route (link api_logs_path van []) ≡ Route.api_logs van)
    × (route (link instances_path van (codes "/dhu-screenshot")) ≡ Route.screenshot false van)
    × (route (link instances_path van (codes "/emu-screenshot")) ≡ Route.screenshot true van)
route_links_example = route_links van (refl, (refl, (refl, (refl, (refl, tt)))))

-- A name may not start by a dot, and nothing may follow it.
strangers :
    (route (codes "/logs/.van") ≡ Route.not_found)
    × (route (codes "/logs/van/other") ≡ Route.not_found)
    × (route (codes "/") ≡ Route.dashboard)
    × (route (codes "/api/instances") ≡ Route.api_instances)
unfolding route named after_prefix match_group name_part ends_by same_codes
strangers = (refl, refl, refl, refl)
