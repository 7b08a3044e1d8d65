-- ===== src/Instances/Service/Interleaving/Laws.antt =====
-- Overlapping requests for different names keep the slots apart.
use mathlib.Core.Path.{subst}
use vanpilot.Prelude.{ℕ, String, ◌≡◌, refl, sym, ap, Option, arith, string_eq, nat_eq}
use vanpilot.Prelude.Dict.{lookup}
use vanpilot.Instances.Ports.{port_allocator}
use vanpilot.Instances.Store.Laws.{Identity, directory}
use vanpilot.Instances.Machine.{Env}
use vanpilot.Instances.Machine.Frame.{claims}
use vanpilot.Instances.Lifecycle.Create.{Timeouts}
use vanpilot.Instances.Service.Claims.{Claims}
use vanpilot.Instances.Service.Interleaving.{Phase, advance, System, set, Step, Run}
use vanpilot.Instances.Service.Interleaving.Sound.{
  Fits, Slotted, own, slot_of, IsSound, Advances-IsSound,
}
use vanpilot.Instances.Service.Interleaving.Phases.{Knows, quiet}
use vanpilot.Instances.Service.Interleaving.Moves.{advance-Moves}

-- What soundness gives the thread of one name.
known : (n : String) (c : Claims) (phase : String → Phase) → IsSound c phase → Knows n c (phase n)
known n c phase k = record { fits = k.fits n; mine = k.used n; in_range = k.in_range }

-- A request that begins for an idle name.
begins :
    (n : String) (p : Phase) (c : Claims) (phase : String → Phase)
    → IsSound c phase
    → Fits n p (lookup n c.1)
    → own p (lookup n c.1) ≡ own (phase n) (lookup n c.1)
    → IsSound c (set phase n p)
begins n p c phase k fits same =
    Advances-IsSound n c c phase p k (quiet n c (phase n) (known n c phase k) c p refl fits same)

-- What a name at rest knows and owns.
at_rest :
    (n : String) (p : Phase) (o : Option Identity)
    → p ≡ Phase.idle
    → Fits n p o
    → Slotted o × (slot_of o ≡ own p o)
unfolding Fits own
at_rest n p o e fits = (subst (λ q. Fits n q o) e fits, sym (ap (λ q. own q o) e))

module _ (env : Env) (timeouts : Timeouts) where
  pub Step-IsSound :
      (s t : System)
      → IsSound (claims s.manager) s.phase
      → Step env timeouts s t
      → IsSound (claims t.manager) t.phase
  unfolding Fits own
  Step-IsSound s _ k (Step.begin_create r free) =
      let (slotted, same) = at_rest r.name (s.phase r.name) _ free (k.fits r.name) in
      begins r.name (Phase.checking r) (claims s.manager) s.phase k (refl, slotted) same
  Step-IsSound s _ k (Step.begin_destroy n free) =
      let (slotted, same) = at_rest n (s.phase n) _ free (k.fits n) in
      begins n Phase.finding (claims s.manager) s.phase k slotted same
  Step-IsSound s _ k (Step.advances n) =
      let (m, p) = advance env timeouts n (s.phase n) s.manager in
      Advances-IsSound n (claims s.manager) (claims m) s.phase p k
        (advance-Moves env timeouts n s.manager (s.phase n) (known n (claims s.manager) s.phase k))
  Step-IsSound s _ k (Step.works m kept) = rw kept k

  -- Whatever the order in which the single operations of any number of `CreateInstance` and
  -- `DestroyInstance` handlers for different names follow each other, from a new manager, with
  -- anything between them that leaves the ports and the identities of the records alone, no two
  -- names own one slot: a name owns the slot that its thread has allocated, or that of its
  -- record until the slot is given back; and the used slots are in range and exactly those that
  -- are owned.
  pub Run-IsSound :
      (max_slots : ℕ) (s : System)
      → Run env timeouts max_slots s
      → IsSound (claims s.manager) s.phase
  unfolding Fits own port_allocator lookup directory
  Run-IsSound max_slots _ (Run.start trace) = record {
    fits = λ n x h. absurd (ground arith);
    apart = λ n n' i h h'. absurd (ground arith);
    used = λ n i h. absurd (ground arith);
    held = λ i h. absurd (ground arith);
    in_range = λ i h. absurd (ground arith);
  }
  Run-IsSound max_slots _ (Run.later {s} {t} r step) =
      Step-IsSound s t (Run-IsSound max_slots s r) step
