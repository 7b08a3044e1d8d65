-- ===== src/Exec/Keeps.antt =====
-- Actions that leave a view of the state alone, whether they return or raise: one rule for each
-- way to build an action.
use vanpilot.Prelude.{◌≡◌, refl, ◌∙◌, Bool, true, false, Option, none, some, if◌then◌else◌}
use vanpilot.Exec.{
  Exn, Result, ok, err, Exec, pure, raise, gets, lift, catch, modify, handler, continue, on_option,
  ◌>>=◌,
}

pub record Keeps {S V A : Type 0} (view : S → V) (m : Exec S A) : Type 0 where
  pub at : (s : S) → view (m s).1 ≡ view s

module _ {S V A : Type 0} {view : S → V} where
  pub Keeps-pure : (a : A) → Keeps view (pure a)
  unfolding pure
  Keeps-pure a = record { at = λ s. refl }

  pub Keeps-raise : (e : Exn) → Keeps view (raise {A = A} e)
  unfolding raise
  Keeps-raise e = record { at = λ s. refl }

  pub Keeps-gets : (f : S → A) → Keeps view (gets f)
  unfolding gets
  Keeps-gets f = record { at = λ s. refl }

  pub Keeps-lift : (r : Result A) → Keeps view (lift r)
  unfolding lift
  Keeps-lift r = record { at = λ s. refl }

  pub Keeps-if :
      (b : Bool) (m n : Exec S A) → Keeps view m → Keeps view n → Keeps view (if b then m else n)
  Keeps-if true m n km kn = km
  Keeps-if false m n km kn = kn

  Keeps-handler :
      (r : Result A) (h : Exn → Exec S A)
      → ((e : Exn) → Keeps view (h e))
      → Keeps view (handler r h)
  Keeps-handler (ok a) h kh = record { at = λ s. refl }
  Keeps-handler (err e) h kh = record { at = λ s. (kh e).at s }

  pub Keeps-catch :
      (m : Exec S A) (h : Exn → Exec S A)
      → Keeps view m
      → ((e : Exn) → Keeps view (h e))
      → Keeps view (catch m h)
  unfolding catch
  Keeps-catch m h km kh = record {
    at = λ s. let (r, s') = m s in (Keeps-handler r h kh).at s' ∙ km.at s;
  }

module _ {S V : Type 0} {view : S → V} where
  pub Keeps-modify : (f : S → S) → ((s : S) → view (f s) ≡ view s) → Keeps view (modify f)
  unfolding modify
  Keeps-modify f h = record { at = h }

module _ {S V A B : Type 0} {view : S → V} where
  Keeps-continue :
      (r : Result A) (f : A → Exec S B) → ((a : A) → Keeps view (f a)) → Keeps view (continue r f)
  Keeps-continue (ok a) f kf = record { at = λ s. (kf a).at s }
  Keeps-continue (err e) f kf = record { at = λ s. refl }

  pub Keeps-on_option :
      (o : Option A) (m : Exec S B) (f : A → Exec S B)
      → Keeps view m
      → ((a : A) → Keeps view (f a))
      → Keeps view (on_option o m f)
  unfolding on_option
  Keeps-on_option none m f km kf = record { at = λ s. km.at s }
  Keeps-on_option (some a) m f km kf = record { at = λ s. (kf a).at s }

  pub Keeps-bind :
      (m : Exec S A) (f : A → Exec S B)
      → Keeps view m
      → ((a : A) → Keeps view (f a))
      → Keeps view (m >>= f)
  unfolding ◌>>=◌
  Keeps-bind m f km kf = record {
    at = λ s. let (r, s') = m s in (Keeps-continue r f kf).at s' ∙ km.at s;
  }

pub ruleset keeps_rules = (
  Keeps-pure, Keeps-raise, Keeps-gets, Keeps-lift, Keeps-if, Keeps-catch, Keeps-on_option,
  Keeps-bind,
)
