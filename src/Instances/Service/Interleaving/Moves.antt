-- ===== src/Instances/Service/Interleaving/Moves.antt =====
-- What each operation of a handler does to the claims on ports, phase by phase.
use mathlib.Core.Option
use vanpilot.Prelude.{
  ℕ, String, true, ◌≡◌, inl, inr, refl, sym, ◌∙◌, ap, Option, none, some, [], ◌∷◌, arith, string_eq,
  nat_eq, ==_iff, contains, Option-cases,
}
use vanpilot.Prelude.Dict.{lookup, insert, erase, lookup-insert, lookup-erase}
use vanpilot.Exec.{Result, ok, Result-cases, swallow, ◌>>=◌}
use vanpilot.Exec.Keeps.{Keeps-catch, Keeps-pure}
use vanpilot.Instances.Ports.{PortSlot, port_slot, discard, allocate, release}
use vanpilot.Instances.Ports.Disjoint.{slot_of_port, slot_of_port-port_slot}
use vanpilot.Instances.Ports.Laws.{allocate-Allocated}
use vanpilot.Instances.Store.{InstanceRecord, Assign, destroying}
use vanpilot.Instances.Store.Laws.{
  Identity, identity, directory, lookup-directory, directory-insert_all, directory-erase,
}
use vanpilot.Instances.Machine.{Env, Manager, on_store, on_ports, update, time_ms}
use vanpilot.Instances.Machine.Frame.{claims, update-Keeps}
use vanpilot.Instances.Lifecycle.Create.{Timeouts}
use vanpilot.Instances.Lifecycle.Destroy.{destroy}
use vanpilot.Instances.Lifecycle.Frame.{destroy-Keeps}
use vanpilot.Instances.Service.{CreateRequest, check_create, started, release_port}
use vanpilot.Instances.Service.Checks.{check_create_sound, check_create-ReadsOnly}
use vanpilot.Instances.Service.Claims.{started-Keeps}
use vanpilot.Instances.Service.Claims.Creation.{
  new_identity, created_record, create_new, allocate_err, take_ports_full, take_ports_free,
}
use vanpilot.Instances.Service.Claims.Destruction.{
  known_record-some, known_record-none, release_port_ok, remove_ok,
}
use vanpilot.Instances.Service.Consistency.{Holds}
use vanpilot.Instances.Service.Interleaving.{Phase, goes, record_ports, advance}
use vanpilot.Instances.Service.Interleaving.Sound.{Fits, Slotted, slot_of, own, Advances}
use vanpilot.Instances.Service.Interleaving.Phases.{
  Knows, same_slots, quiet, taking, dropping, goes-Advances,
}

-- Where nothing is recorded, there is nothing to be of a slot.
none-Slotted : {o : Option Identity} → o ≡ none → Slotted o
none-Slotted absent x found = absurd (ground (arith, absent, found))

one-Slotted : {o : Option Identity} (x : Identity) → o ≡ some x → (i : ℕ) × Holds x i → Slotted o
one-Slotted x found holds y found' =
    let is_x : x ≡ y = ground (arith, found, found') in rw (← is_x) holds

-- What a thread finds in the store is in the directory.
in_directory :
    (n : String) (m : Manager) (o : Option InstanceRecord)
    → lookup n m.store ≡ o
    → lookup n (claims m).1 ≡ Option.map identity o
in_directory n m o found = lookup-directory n m.store ∙ ap (Option.map identity) found

module _ (env : Env) (timeouts : Timeouts) (n : String) (m : Manager) where
  -- the thread of `n` at `p`, after one operation
  abbrev pub Moves : Phase → Type 0
  Moves p =
      Knows n (claims m) p
      → let (m', p') = advance env timeouts n p m in Advances n (claims m) p (claims m') p'

  -- an operation whose outcome is known
  ran :
      {A : Type 0} (p : Phase) {m1 : Manager} {a : A} {run : Result A × Manager} (next : A → Phase)
      → run ≡ (ok a, m1)
      → Advances n (claims m) p (claims m1) (next a)
      → let (m', p') = goes run next Phase.idle in Advances n (claims m) p (claims m') p'
  ran p next known a = rw (known, goes) a

  checking-Moves : (r : CreateRequest) → Moves (Phase.checking r)
  unfolding advance Fits own
  checking-Moves r k =
      let (named, slotted) = k.fits in
      goes-Advances n m (check_create r m).1 (Phase.checking r) k (check_create r m).0 _ _
        (ap claims ((check_create-ReadsOnly r).at m))
        (λ u passed.
          let fresh : lookup n m.store ≡ none =
            ap (λ k. lookup k m.store) (sym named) ∙ (check_create_sound r m passed).fresh in
          let absent = in_directory n m none fresh in ((named, absent), rw absent refl))
        (λ e _. (slotted, refl))

  allocating-Moves : (r : CreateRequest) → Moves (Phase.allocating r)
  unfolding advance Fits own
  allocating-Moves r k =
      let (named, absent) = k.fits in
      elim (Result-cases (allocate m.ports).0) [
        | inl (e, full) ↦
            rw (take_ports_full m (allocate_err m.ports e full), goes)
              (quiet n (claims m) (Phase.allocating r) k (claims m) Phase.idle refl
                (none-Slotted absent) (rw absent refl))
        | inr (p, taken) ↦
            let (i, lowest, slot, after) = allocate-Allocated m.ports taken in
            let free : allocate m.ports
                ≡ (ok (port_slot i), record m.ports { used = i ∷ m.ports.used }) =
              ground (arith, taken, slot, after) in
            rw (take_ports_free m i _ free, goes)
              (taking n (claims m) (Phase.allocating r) k i (Phase.recording r (port_slot i))
                lowest.free lowest.below (named, absent, i, refl) refl (slot_of_port-port_slot i))
      ]

  launching-Moves : (r : CreateRequest) (p : PortSlot) → Moves (Phase.launching r p)
  unfolding advance Fits own
  launching-Moves r p k =
      let (named, (i, x, slot, found, holds)) = k.fits in
      let (result, m') = started env timeouts r p m in
      goes-Advances n m m' (Phase.launching r p) k result _ _
        ((started-Keeps env timeouts r p).at m) (λ _ _. (one-Slotted x found (i, holds), refl))
        (λ _ _. ((i, x, slot, found, holds), refl))

  finding-Moves : Moves Phase.finding
  unfolding advance Fits own
  finding-Moves k = elim (Option-cases (lookup n m.store)) [
    | inl missing ↦
        rw (known_record-none n m missing, goes)
          (quiet n (claims m) Phase.finding k (claims m) Phase.idle refl k.fits refl)
    | inr (r, found) ↦
        let there = in_directory n m (some r) found in
        rw (known_record-some n m r found, goes)
          (quiet n (claims m) Phase.finding k (claims m) (Phase.marking r) refl
            (there, (k.fits (identity r) there).0, (k.fits (identity r) there).1) refl)
  ]

  marking-Moves : (r : InstanceRecord) → Moves (Phase.marking r)
  unfolding advance Fits own
  marking-Moves r k =
      let (found, i, holds) = k.fits in
      let assigns = Assign.state destroying ∷ [] in
      let (result, m') = update n assigns m in
      goes-Advances n m m' (Phase.marking r) k result _ _ ((update-Keeps n assigns refl).at m)
        (λ _ _. ((found, i, holds), refl))
        (λ _ _. (one-Slotted (identity r) found (i, holds), refl))

  stopping-Moves : (r : InstanceRecord) → Moves (Phase.stopping r)
  unfolding advance Fits own
  stopping-Moves r k =
      let (found, i, holds) = k.fits in
      let (result, m') = swallow (destroy env r) m in
      goes-Advances n m m' (Phase.stopping r) k result _ _
        ((Keeps-catch _ _ (destroy-Keeps env r) (λ _. Keeps-pure tt)).at m)
        (λ _ _. ((found, i, holds), refl))
        (λ _ _. (one-Slotted (identity r) found (i, holds), refl))

  recording_on : (r : CreateRequest) (i : ℕ) → Moves (Phase.recording r (port_slot i))
  unfolding advance Fits own record_ports ◌>>=◌ on_store time_ms
  recording_on r i k =
      let (named, absent, _, _) = k.fits in
      let x = new_identity r i (env.time_ms m.trace) in
      let now : lookup n (insert r.name x (directory m.store)) ≡ some x =
        ground (arith, lookup-insert n r.name x (directory m.store), ==_iff n r.name, named) in
      rw
        (
          create_new r i (env.time_ms m.trace) m.store (not_there r named absent),
          ◌>>=◌,
          goes,
          directory-insert_all r.name (created_record r i (env.time_ms m.trace)) m.store,
        )
        (same_slots n (claims m) (Phase.recording r (port_slot i)) k
          (insert r.name x (directory m.store)) (Phase.launching r (port_slot i))
          (λ j differ. ground (arith, lookup-insert j r.name x (directory m.store), named))
          (named, (i, x, refl, now, record { console = refl; adb = refl; aa_forward = refl }))
          (rw now refl))
    where
      not_there :
          (r : CreateRequest)
          → r.name ≡ n
          → lookup n (claims m).1 ≡ none
          → lookup r.name m.store ≡ none
      not_there r named absent = ground (arith, named, absent, lookup-directory n m.store)

  recording-Moves : (r : CreateRequest) (p : PortSlot) → Moves (Phase.recording r p)
  unfolding Fits
  recording-Moves r p k =
      let (named, absent, i, slot) = k.fits in
      let on_slot : Moves (Phase.recording r p) = rw slot (recording_on r i) in on_slot k

  releasing_on :
      (i : ℕ)
      → contains i m.ports.used ≡ true
      → on_ports (release (port_slot i).slot_index) m
        ≡ (ok tt, record m { ports = record m.ports { used = discard i m.ports.used } })
  unfolding on_ports release port_slot
  releasing_on i taken = rw taken refl

  releasing-Moves : (p : PortSlot) → Moves (Phase.releasing p)
  unfolding advance Fits own
  releasing-Moves p k =
      let (i, x, slot, found, holds) = k.fits in
      let mine : own (Phase.releasing p) (lookup n (claims m).1) ≡ some i =
        ap (λ o. slot_of o) found ∙ ap slot_of_port holds.console ∙ slot_of_port-port_slot i in
      let run = ap (λ q. on_ports (release q.slot_index) m) slot ∙ releasing_on i (k.mine i mine) in
      ran (Phase.releasing p) (λ _. Phase.removing) run
        (dropping n (claims m) (Phase.releasing p) k i Phase.removing (x, found) mine refl)

  freeing-Moves : (r : InstanceRecord) → Moves (Phase.freeing r)
  unfolding advance Fits own
  freeing-Moves r k =
      let (found, i, holds) = k.fits in
      let mine : own (Phase.freeing r) (lookup n (claims m).1) ≡ some i =
        ap (λ o. slot_of o) found ∙ ap slot_of_port holds.console ∙ slot_of_port-port_slot i in
      let run = ap (λ c. release_port c m) holds.console ∙ release_port_ok i m (k.mine i mine) in
      ran (Phase.freeing r) (λ _. Phase.removing) run
        (dropping n (claims m) (Phase.freeing r) k i Phase.removing (identity r, found) mine refl)

  removing-Moves : Moves Phase.removing
  unfolding advance Fits own
  removing-Moves k =
      let (x, found) = k.fits in
      let gone : lookup n (erase n (directory m.store)) ≡ none =
        ground (arith, lookup-erase n n (directory m.store), ==_iff n n) in
      ran Phase.removing (λ _. Phase.idle) (remove_ok n m x found)
        (rw (directory-erase n m.store) (
          same_slots n (claims m) Phase.removing k (erase n (directory m.store)) Phase.idle
            (λ j differ. ground (arith, lookup-erase j n (directory m.store))) (none-Slotted gone)
            (rw gone refl)))

  pub advance-Moves : (p : Phase) → Moves p
  unfolding advance
  advance-Moves Phase.idle k =
      quiet n (claims m) Phase.idle k (claims m) Phase.idle refl k.fits refl
  advance-Moves (Phase.checking r) k = checking-Moves r k
  advance-Moves (Phase.allocating r) k = allocating-Moves r k
  advance-Moves (Phase.recording r p) k = recording-Moves r p k
  advance-Moves (Phase.launching r p) k = launching-Moves r p k
  advance-Moves (Phase.releasing p) k = releasing-Moves p k
  advance-Moves Phase.finding k = finding-Moves k
  advance-Moves (Phase.marking r) k = marking-Moves r k
  advance-Moves (Phase.stopping r) k = stopping-Moves r k
  advance-Moves (Phase.freeing r) k = freeing-Moves r k
  advance-Moves Phase.removing k = removing-Moves k
