-- ===== src/Instances/Service/Errors.antt =====
-- With which codes the handlers end.
use vanpilot.Prelude.{
  String, ◌≢◌, refl, [], ◌∷◌, arith, string_eq, Option-cases, Bool-cases, Option-cases, inl, inr,
}
use vanpilot.Prelude.Dict.{lookup}
use vanpilot.Exec.{
  Result, ok, err, aborted, invalid_argument, internal, handler, catch, Result-cases, when, ◌>>=◌,
}
use vanpilot.Instances.Store.{is_running, Bytes}
use vanpilot.Instances.Machine.{Env, M, Manager, get}
use vanpilot.Instances.Lifecycle.Create.{Timeouts}
use vanpilot.Instances.Service.{known_record, running_record, or_internal, abort}
use vanpilot.Instances.Service.Device.{InstallRequest, install_apk, is_nil}

-- No run of the action ends by INVALID_ARGUMENT.
abbrev Accepts : {A : Type 0} → M A → Type 0
Accepts x = (m : Manager) → (x m).0 ≢ err (aborted invalid_argument)

bind-Accepts :
    {A B : Type 0} (x : M A) (f : A → M B)
    → Accepts x
    → ((a : A) → Accepts (f a))
    → Accepts (x >>= f)
unfolding ◌>>=◌
bind-Accepts x f kx kf m =
    let (r, m') = x m in
    elim (Result-cases r) [
      | inl (e, raised) ↦ λ out. kx m (ground (arith, raised, out))
      | inr (a, returned) ↦ λ out. kf a m' (ground (arith, returned, out))
    ]

handler-Accepts :
    {A : Type 0} (r : Result A) (m : Manager)
    → (handler r (λ _. abort {A = A} internal) m).0 ≢ err (aborted invalid_argument)
unfolding ◌>>=◌
handler-Accepts (ok a) m out = absurd (ground (arith, out))
handler-Accepts (err e) m out = absurd (ground (arith, out))

or_internal-Accepts : {A : Type 0} (x : M A) → Accepts (or_internal x)
unfolding catch
or_internal-Accepts x m = let (r, m') = x m in handler-Accepts r m'

data-Accepts : (apk : Bytes) → apk ≢ [] → Accepts (when (is_nil apk) (abort invalid_argument))
unfolding ◌>>=◌
data-Accepts [] h m out = absurd (h refl)
data-Accepts (b ∷ apk) h m out = absurd (ground (arith, out))

running_record-Accepts : (name : String) → Accepts (running_record name)
unfolding running_record known_record get ◌>>=◌
running_record-Accepts name m = elim (Option-cases (lookup name m.store)) [
  | inl missing ↦ λ out. absurd (ground (arith, missing, out))
  | inr (r, found) ↦ elim (Bool-cases (is_running r.state)) [
    | inl up ↦ λ out. absurd (ground (arith, found, up, out))
    | inr down ↦ λ out. absurd (ground (arith, found, down, out))
  ]
]

-- InstallApk with an APK that is not empty never ends by INVALID_ARGUMENT, whatever the name of
-- the snapshot to save, since the code that checks that name stands inside the handler that
-- turns every exception into INTERNAL.
pub install_apk_hides_status :
    (env : Env) (timeouts : Timeouts) (request : InstallRequest) (m : Manager)
    → request.apk_data ≢ []
    → (install_apk env timeouts request m).0 ≢ err (aborted invalid_argument)
unfolding install_apk
install_apk_hides_status env timeouts request m filled =
    bind-Accepts _ _ (data-Accepts request.apk_data filled)
      (λ _. bind-Accepts _ _ (running_record-Accepts request.name) (λ r. or_internal-Accepts _)) m
