-- ===== src/Instances/Dashboard/Laws.antt =====
-- Where the links of the dashboard lead.
use vanpilot.Prelude.{
  ℕ, true, false, ◌≡◌, refl, none, some, List, [], ◌∷◌, ◌++◌, nat_eq, ==_refl, arith,
}
use vanpilot.Prelude.Text.{codes, same_codes}
use vanpilot.Instances.Names.{is_name_char}
use vanpilot.Instances.Names.Laws.{AllNameChars, IsPlain}
use vanpilot.Instances.Dashboard.{
  Route, after_prefix, name_part, ends_by, match_group, named, route, instances_path, api_logs_path,
  logs_path,
}

-- What follows a name: nothing, or what starts by a character that no name has.
abbrev Stops : List ℕ → Type 0
Stops [] = Unit {0}
Stops (c ∷ cs) = is_name_char c ≡ false

name_part-append :
    (name tail : List ℕ) → AllNameChars name → Stops tail → name_part (name ++ tail) ≡ (name, tail)
unfolding name_part
name_part-append [] [] all stops = refl
name_part-append [] (c ∷ cs) all stops = rw stops refl
name_part-append (c ∷ name) tail (is_char, all) stops =
    rw (is_char, name_part-append name tail all stops) refl

same_codes_refl : (cs : List ℕ) → same_codes cs cs ≡ true
unfolding same_codes
same_codes_refl [] = refl
same_codes_refl (c ∷ cs) = ground (arith, same_codes_refl cs, ==_refl c)

ends_by_self : (tail : List ℕ) → ends_by tail tail ≡ true
unfolding ends_by
ends_by_self tail = ground (arith, same_codes_refl tail)

-- The name is found by the pattern with what follows it.
match_group-append :
    (name tail : List ℕ) → IsPlain name → Stops tail → match_group tail (name ++ tail) ≡ some name
unfolding match_group
match_group-append [] tail plain stops = absurd plain
match_group-append (c ∷ name) tail (first, all) stops =
    rw (name_part-append name tail all stops, first, ends_by_self tail) refl

-- The name is not found by a pattern with another tail.
match_group_other :
    (name tail other : List ℕ)
    → IsPlain name
    → Stops tail
    → ends_by other tail ≡ false
    → match_group other (name ++ tail) ≡ none
unfolding match_group
match_group_other [] tail other plain stops differ = absurd plain
match_group_other (c ∷ name) tail other (first, all) stops differ =
    rw (name_part-append name tail all stops, first, differ) refl

-- A link to something of an instance.
abbrev pub link : List ℕ → List ℕ → List ℕ → List ℕ
link prefix name tail = prefix ++ (name ++ tail)

-- For every name that matches the pattern for names and ends in no newline, do_GET leads the
-- links of the dashboard to what they are for, with this name: /logs/ to the page of its logs,
-- /logs/.../stream to their stream, /api/logs/ to the logs, and the two of /instances/ to its
-- two screenshots.
pub route_links :
    (name : List ℕ)
    → IsPlain name
    → (route (link logs_path name []) ≡ Route.log_page name)
      × (route (link logs_path name (codes "/stream")) ≡ Route.log_stream name)
      × (route (link api_logs_path name []) ≡ Route.api_logs name)
      × (route (link instances_path name (codes "/dhu-screenshot")) ≡ Route.screenshot false name)
      × (route (link instances_path name (codes "/emu-screenshot")) ≡ Route.screenshot true name)
unfolding route named after_prefix same_codes
route_links name plain = (
  rw
      (
        match_group_other name [] (codes "/stream") plain tt refl,
        match_group-append name [] plain tt,
      )
      refl,
  rw (match_group-append name (codes "/stream") plain refl) refl,
  rw (match_group-append name [] plain tt) refl,
  rw (match_group-append name (codes "/dhu-screenshot") plain refl) refl,
  rw
      (
        match_group_other name (codes "/emu-screenshot") (codes "/dhu-screenshot") plain refl refl,
        match_group-append name (codes "/emu-screenshot") plain refl,
      )
      refl,
)
