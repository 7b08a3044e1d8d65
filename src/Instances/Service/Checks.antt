-- ===== src/Instances/Service/Checks.antt =====
-- The checks of the handlers: what they let through, and that they only read.
use vanpilot.Prelude.{
  String, true, false, ◌≡◌, ◌↔◌, none, arith, string_eq, ==_iff, ap, Option-cases, Bool-cases, inl,
  inr,
}
use vanpilot.Prelude.Text.{is_blank, or_text}
use vanpilot.Prelude.Dict.{lookup}
use vanpilot.Exec.{ok, ◌>>=◌}
use vanpilot.Exec.Keeps.{Keeps, keeps_rules}
use vanpilot.Instances.Store
use vanpilot.Instances.Names.{is_safe_name}
use vanpilot.Instances.Machine.{Manager, M, get}
use vanpilot.Instances.Service.{
  CreateRequest, check_create, known_record, running_record, default_avd, default_snapshot,
}

-- An action that writes nothing.
abbrev pub ReadsOnly : {A : Type 0} → M A → Type 0
ReadsOnly m = Keeps (λ s. s) m

pub check_create-ReadsOnly : (request : CreateRequest) → ReadsOnly (check_create request)
unfolding check_create get
check_create-ReadsOnly request = search keeps_rules depth 14

pub known_record-ReadsOnly : (name : String) → ReadsOnly (known_record name)
unfolding known_record get
known_record-ReadsOnly name = search keeps_rules depth 14

pub running_record-ReadsOnly : (name : String) → ReadsOnly (running_record name)
unfolding running_record
running_record-ReadsOnly name = search (keeps_rules, known_record-ReadsOnly) depth 14

-- What the checks of `CreateInstance` let through.
pub record IsAcceptable (request : CreateRequest) (s : Store.Store) : Type 0 where
  pub name_safe : is_safe_name request.name ≡ true
  pub fresh : lookup request.name s ≡ none
  pub avd_safe : is_safe_name (or_text request.avd_name default_avd) ≡ true
  pub snapshot_safe : is_safe_name (or_text request.snapshot_name default_snapshot) ≡ true

not_blank : (name : String) → is_safe_name name ≡ true → is_blank name ≡ false
unfolding is_safe_name
not_blank name h = elim (Bool-cases (is_blank name)) [
  | inl blank ↦ absurd (ground (arith, h, ap is_safe_name ((==_iff name "").0 blank)))
  | inr filled ↦ filled
]

pub check_create_sound :
    (request : CreateRequest) (m : Manager)
    → (check_create request m).0 ≡ ok tt
    → IsAcceptable request m.store
unfolding check_create ◌>>=◌ get
check_create_sound request m h = elim (Option-cases (lookup request.name m.store)) [
  | inl absent ↦ record {
    name_safe = ground arith;
    fresh = absent;
    avd_safe = ground arith;
    snapshot_safe = ground arith;
  }
  | inr (r, found) ↦ absurd (ground arith)
]

check_create_complete :
    (request : CreateRequest) (m : Manager)
    → IsAcceptable request m.store
    → (check_create request m).0 ≡ ok tt
unfolding check_create ◌>>=◌ get
check_create_complete request m a =
    ground
      (arith, a.name_safe, a.fresh, a.avd_safe, a.snapshot_safe, not_blank request.name a.name_safe)

-- The checks of `CreateInstance` pass, and write nothing, exactly when the name, the device and
-- the snapshot, with the defaults filled in, match the pattern and no instance has the name.
pub check_create_iff :
    (request : CreateRequest) (m : Manager)
    → (check_create request m ≡ (ok tt, m)) ↔ IsAcceptable request m.store
check_create_iff request m = (
  λ e. check_create_sound request m (ap (λ p. p.0) e),
  λ a. ground (arith, check_create_complete request m a, (check_create-ReadsOnly request).at m),
)
