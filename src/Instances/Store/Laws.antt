-- ===== src/Instances/Store/Laws.antt =====
-- What the operations of the store write and what they leave alone.
use mathlib.Core.Option
use vanpilot.Prelude.{
  ℕ, String, Bool, true, false, ◌&&◌, ◌≡◌, refl, ◌∙◌, some, List, [], ◌∷◌, arith, ◌==◌, string_eq,
  ==_iff, Option-cases, inl, inr,
}
use vanpilot.Prelude.Dict.{Dict, lookup, insert, erase, lookup-insert}
use vanpilot.Instances.Store.{InstanceRecord, Store, Assign, set_field, set_fields, update}

-- The fields of a record that no caller of `update` writes.
pub record Identity : Type 0 where
  pub name : String
  pub console : ℕ
  pub adb : ℕ
  pub aa_forward : ℕ
  pub headful : Bool
  pub created_at_ms : ℕ
  pub avd_name : String

abbrev pub identity : InstanceRecord → Identity
identity r = record {
  name = r.name;
  console = r.emulator_console_port;
  adb = r.adb_port;
  aa_forward = r.aa_forward_port;
  headful = r.headful;
  created_at_ms = r.created_at_ms;
  avd_name = r.avd_name;
}

-- Who is in the store, and the identity of each.
unfoldable pub directory : Store → Dict String Identity
directory [] = []
directory ((n, r) ∷ s) = (n, identity r) ∷ directory s

pub lookup-directory :
    (n : String) (s : Store) → lookup n (directory s) ≡ Option.map identity (lookup n s)
unfolding directory lookup
lookup-directory n [] = refl
lookup-directory n ((j, r) ∷ s) = ground (arith, lookup-directory n s)

-- whether a keyword argument leaves the identity alone
abbrev pub keeps_identity : Assign → Bool
keeps_identity (Assign.record_name v) = false
keeps_identity (Assign.record_avd_name v) = false
keeps_identity (Assign.emulator_console_port v) = false
keeps_identity (Assign.adb_port v) = false
keeps_identity (Assign.aa_forward_port v) = false
keeps_identity (Assign.record_created_at_ms v) = false
keeps_identity (Assign.record_headful v) = false
keeps_identity _ = true

abbrev pub keep_identity : List Assign → Bool
keep_identity [] = true
keep_identity (a ∷ rest) = keeps_identity a && keep_identity rest

identity-set_field :
    (a : Assign) (r : InstanceRecord) {r' : InstanceRecord}
    → keeps_identity a ≡ true
    → set_field a r ≡ some r'
    → identity r' ≡ identity r
unfolding set_field
identity-set_field (Assign.state v) r keeps h = ground arith
identity-set_field _ r keeps h = ground arith

identity-set_fields :
    (assigns : List Assign) (r : InstanceRecord)
    → keep_identity assigns ≡ true
    → identity (set_fields assigns r).1 ≡ identity r
unfolding set_fields
identity-set_fields [] r keeps = refl
identity-set_fields (a ∷ rest) r keeps = elim (Option-cases (set_field a r)) [
  | inl no_field ↦ rw (no_field, set_fields)
  | inr (r', written) ↦
      rw (written, set_fields)
        (identity-set_fields rest r' (ground (arith, keeps))
          ∙ identity-set_field a r (ground (arith, keeps)) written)
]

directory-insert :
    (n : String) (r r' : InstanceRecord) (s : Store)
    → lookup n s ≡ some r
    → identity r' ≡ identity r
    → directory (insert n r' s) ≡ directory s
unfolding directory lookup insert
directory-insert n r r' [] h e = cc
directory-insert n r r' ((j, q) ∷ s) h e = ground (arith, ==_iff n j, directory-insert n r r' s)

pub directory-insert_all :
    (n : String) (r : InstanceRecord) (s : Store)
    → directory (insert n r s) ≡ insert n (identity r) (directory s)
unfolding directory insert
directory-insert_all n r [] = refl
directory-insert_all n r ((j, q) ∷ s) = ground (arith, directory-insert_all n r s)

pub directory-erase : (n : String) (s : Store) → directory (erase n s) ≡ erase n (directory s)
unfolding directory erase
directory-erase n [] = refl
directory-erase n ((j, q) ∷ s) = ground (arith, directory-erase n s)

-- update with keyword arguments for other fields changes no name, port, mode, creation time or
-- device of any record and adds and removes none, whether it raises or not.
pub directory-update :
    (n : String) (assigns : List Assign) (s : Store)
    → keep_identity assigns ≡ true
    → directory (update n assigns s).1 ≡ directory s
unfolding update
directory-update n assigns s keeps = elim (Option-cases (lookup n s)) [
  | inl missing ↦ ground arith
  | inr (r, found) ↦ ground (
    arith,
    directory-insert n r (set_fields assigns r).1 s found (identity-set_fields assigns r keeps),
  )
]

-- update leaves the record of every other name as it was.
pub lookup-update_ne :
    (n j : String) (assigns : List Assign) (s : Store)
    → (j == n) ≡ false
    → lookup j (update n assigns s).1 ≡ lookup j s
unfolding update
lookup-update_ne n j assigns s ne = elim (Option-cases (lookup n s)) [
  | inl missing ↦ ground arith
  | inr (r, found) ↦ ground (arith, lookup-insert j n (set_fields assigns r).1 s)
]

-- The record of its name is what the assignments make of it.
pub lookup-update_self :
    (n : String) (assigns : List Assign) (s : Store)
    → lookup n (update n assigns s).1 ≡ Option.map (λ r. (set_fields assigns r).1) (lookup n s)
unfolding update
lookup-update_self n assigns s = elim (Option-cases (lookup n s)) [
  | inl missing ↦ ground arith
  | inr (r, found) ↦ ground (arith, ==_iff n n, lookup-insert n n (set_fields assigns r).1 s)
]
