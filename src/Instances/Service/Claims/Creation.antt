-- ===== src/Instances/Service/Claims/Creation.antt =====
-- How `CreateInstance` changes the claims on ports.
use mathlib.Core.Option
use vanpilot.Prelude.{
  ℕ, false, ◌≡◌, refl, ◌∙◌, ap, none, ◌∷◌, arith, nat_eq, string_eq, contains, ◌⊎◌, Option-cases,
  inl, inr,
}
use vanpilot.Prelude.Text.{or_text}
use vanpilot.Prelude.Dict.{lookup, insert}
use vanpilot.Exec.{
  Exn, Result, runtime_error, resource_exhausted, ok, err, handler, Result-cases, aborted, bind_ok,
  bind_err, ◌>>=◌,
}
use vanpilot.Instances.Ports.{PortAllocator, port_slot, allocate, first_free}
use vanpilot.Instances.Ports.Laws.{IsLowest, allocate-Allocated}
use vanpilot.Instances.Store
use vanpilot.Instances.Store.Laws.{
  Identity, identity, directory, lookup-directory, directory-insert_all,
}
use vanpilot.Instances.Machine.{Env, Manager, asked_time, time_ms, on_store, on_ports}
use vanpilot.Instances.Machine.Frame.{claims}
use vanpilot.Instances.Lifecycle.Create.{Timeouts}
use vanpilot.Instances.Service.Checks.{IsAcceptable, check_create_sound, check_create-ReadsOnly}
use vanpilot.Instances.Service.{
  take_ports, CreateRequest, create_on, check_create, create_instance, default_avd, InstanceInfo,
}
use vanpilot.Instances.Service.Claims.{Claims, claim, Settles, launch-Settles}

-- The identity of the instance that a request creates on slot `i`.
abbrev pub new_identity : CreateRequest → ℕ → ℕ → Identity
new_identity request i now = record {
  name = request.name;
  console = (port_slot i).console_port;
  adb = (port_slot i).adb_port;
  aa_forward = (port_slot i).aa_forward_port;
  headful = request.headful;
  created_at_ms = now;
  avd_name = or_text request.avd_name default_avd;
}

-- The record that a request creates on slot `i`.
abbrev pub created_record : CreateRequest → ℕ → ℕ → Store.InstanceRecord
created_record request i now =
    let p = port_slot i in
    Store.new_record request.name p.console_port p.adb_port p.aa_forward_port request.headful now
      (or_text request.avd_name default_avd)

pub create_new :
    (request : CreateRequest) (i now : ℕ) (s : Store.Store)
    → lookup request.name s ≡ none
    → let p = port_slot i in
      let r = created_record request i now in
      Store.create request.name p.console_port p.adb_port p.aa_forward_port request.headful now
        (or_text request.avd_name default_avd)
        s
      ≡ (ok r, insert request.name r s)
unfolding Store.create
create_new request i now s absent = rw absent refl

module _ (env : Env) (timeouts : Timeouts) (request : CreateRequest) where
  create_on-Settles :
      (i : ℕ) (a : PortAllocator) (m : Manager)
      → contains i a.used ≡ false
      → lookup request.name m.store ≡ none
      → m.ports ≡ record a { used = i ∷ a.used }
      → let (r, m') = create_on env timeouts request (port_slot i) m in
        let x = new_identity request i (env.time_ms m.trace) in
        let c : Claims = (a, directory m.store) in
        Settles r (claims m') c (claim request.name x i c)
  unfolding create_on ◌>>=◌ on_store time_ms
  create_on-Settles i a m free absent h =
      let now = env.time_ms m.trace in
      let r = created_record request i now in
      let d = directory m.store in
      let c : Claims = (a, d) in
      let made : Manager = record m {
        store = insert request.name r m.store;
        trace = asked_time ∷ m.trace;
      } in
      rw (create_new request i now m.store absent, ◌>>=◌)
        (launch-Settles env timeouts request (new_identity request i now) i c made free
          (lookup-directory request.name m.store ∙ ap (Option.map identity) absent)
          (rw (h, directory-insert_all request.name r m.store) refl))

-- What a call of `CreateInstance` did to the claims: it raised and left them as they were, or it
-- took the lowest free slot for a name that was not in use.
abbrev pub Created : Env → CreateRequest → Manager → Result InstanceInfo → Manager → Type 0
Created env request m r m' =
    ((e : Exn) × (r ≡ err e) × (claims m' ≡ claims m))
    ⊎ ((info : InstanceInfo) × (i : ℕ) × (now : ℕ) × (r ≡ ok info)
        × IsLowest 0 m.ports.max_slots m.ports.used i
        × IsAcceptable request m.store
        × (claims m' ≡ claim request.name (new_identity request i now) i (claims m)))

pub allocate_err :
    (a : PortAllocator) (e : Exn) → (allocate a).0 ≡ err e → allocate a ≡ (err runtime_error, a)
unfolding allocate
allocate_err a e h = elim (Option-cases (first_free a.max_slots 0 a.used)) [
  | inl full ↦ ground arith
  | inr (i, found) ↦ absurd (ground arith)
]

pub take_ports_full :
    (m : Manager)
    → allocate m.ports ≡ (err runtime_error, m.ports)
    → take_ports m ≡ (err (aborted resource_exhausted), m)
unfolding take_ports ◌>>=◌ on_ports
take_ports_full m full = rw (full, handler) refl

pub take_ports_free :
    (m : Manager) (i : ℕ) (b : PortAllocator)
    → allocate m.ports ≡ (ok (port_slot i), b)
    → take_ports m ≡ (ok (port_slot i), record m { ports = b })
unfolding take_ports ◌>>=◌ on_ports
take_ports_free m i b free = rw (free, handler) refl

module _ (env : Env) (timeouts : Timeouts) (request : CreateRequest) where
  on_slot :
      (m : Manager) (i : ℕ)
      → IsAcceptable request m.store
      → IsLowest 0 m.ports.max_slots m.ports.used i
      → let m1 : Manager = record m { ports = record m.ports { used = i ∷ m.ports.used } } in
        let (r, m') = create_on env timeouts request (port_slot i) m1 in Created env request m r m'
  on_slot m i ok_request lowest =
      let m1 : Manager = record m { ports = record m.ports { used = i ∷ m.ports.used } } in
      elim (create_on-Settles env timeouts request i m.ports m1 lowest.free ok_request.fresh refl) [
        | inl (e, raised, kept) ↦ inl (e, raised, kept)
        | inr (info, returned, taken) ↦
            inr (info, i, env.time_ms m.trace, returned, lowest, ok_request, taken)
      ]

  after_checks :
      (m : Manager)
      → IsAcceptable request m.store
      → let (r, m') = (take_ports >>= create_on env timeouts request) m in
        Created env request m r m'
  unfolding ◌>>=◌
  after_checks m ok_request = elim (Result-cases (allocate m.ports).0) [
    | inl (e, full) ↦
        rw (take_ports_full m (allocate_err m.ports e full), ◌>>=◌) (inl (_, refl, refl))
    | inr (p, taken) ↦
        let (i, lowest, slot, after) = allocate-Allocated m.ports taken in
        let free : allocate m.ports
            ≡ (ok (port_slot i), record m.ports { used = i ∷ m.ports.used }) =
          ground (arith, taken, slot, after) in
        rw (take_ports_free m i _ free, ◌>>=◌) (on_slot m i ok_request lowest)
  ]

  -- `CreateInstance` raises and leaves the ports and the identities of the records as they were,
  -- or it returns, and then the request was acceptable and its name got the lowest free slot.
  pub create_instance-Created :
      (m : Manager)
      → let (r, m') = create_instance env timeouts request m in Created env request m r m'
  unfolding create_instance
  create_instance-Created m =
      let reads = (check_create-ReadsOnly request).at m in
      elim (Result-cases (check_create request m).0) [
        | inl (e, rejected) ↦
            let run : create_instance env timeouts request m ≡ (err e, m) =
              bind_err _ _ (ground (arith, rejected, reads)) in
            rw run (inl (e, refl, refl))
        | inr (_, passed) ↦
            let run : create_instance env timeouts request m
                ≡ (take_ports >>= create_on env timeouts request) m =
              bind_ok _ _ (ground (arith, passed, reads)) in
            rw run (after_checks m (check_create_sound request m passed))
      ]
