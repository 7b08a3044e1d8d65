-- ===== src/Instances/Service/Interleaving/Phases.antt =====
-- What each operation of a thread does to the claims on ports.
use vanpilot.Prelude.{
  ℕ, String, true, false, ◌≡◌, ◌≢◌, ◌⊎◌, inl, inr, ◌<◌, refl, sym, ◌∙◌, ap, Option, none, some, ◌∷◌,
  ◌==◌, arith, string_eq, nat_eq, ==_iff, contains, Bool-cases,
}
use vanpilot.Prelude.Dict.{Dict, lookup}
use vanpilot.Exec.{Exn, Result, ok, err}
use vanpilot.Instances.Ports.{discard}
use vanpilot.Instances.Ports.Laws.{contains-discard}
use vanpilot.Instances.Store.Laws.{Identity}
use vanpilot.Instances.Machine.{Manager}
use vanpilot.Instances.Machine.Frame.{claims}
use vanpilot.Instances.Service.Claims.{Claims}
use vanpilot.Instances.Service.Consistency.{not_discarded}
use vanpilot.Instances.Service.Interleaving.{Phase, goes}
use vanpilot.Instances.Service.Interleaving.Sound.{Fits, own, Advances}

-- What soundness gives the thread of `n`.
pub record Knows (n : String) (c : Claims) (p : Phase) : Type 0 where
  pub fits : Fits n p (lookup n c.1)
  pub mine : (i : ℕ) → own p (lookup n c.1) ≡ some i → contains i c.0.used ≡ true
  pub in_range : (i : ℕ) → contains i c.0.used ≡ true → i < c.0.max_slots

owns_or_not : (o : Option ℕ) (i : ℕ) → (o ≡ some i) ⊎ (o ≢ some i)
owns_or_not none i = inr (λ e. absurd (ground arith))
owns_or_not (some j) i = elim (Bool-cases (j == i)) [
  | inl same ↦ inl (ap some ((==_iff j i).0 same))
  | inr differ ↦ inr (λ e. absurd (ground (arith, ==_iff j i)))
]

module _ (n : String) (c : Claims) (p : Phase) (k : Knows n c p) where
  -- An operation that leaves the ports alone, and who owns which.
  pub same_slots :
      (d : Dict String Identity) (p' : Phase)
      → ((m : String) → (m == n) ≡ false → lookup m d ≡ lookup m c.1)
      → Fits n p' (lookup n d)
      → own p' (lookup n d) ≡ own p (lookup n c.1)
      → Advances n c p (c.0, d) p'
  same_slots d p' others fits same = record {
    others = others;
    fits = fits;
    gains = λ i h. inl (sym same ∙ h);
    used = λ i h. k.mine i (sym same ∙ h);
    stays = λ i h ne. h;
    accounted = λ i h. elim (owns_or_not (own p (lookup n c.1)) i) [
      | inl mine ↦ inl (same ∙ mine)
      | inr not_mine ↦ inr (h, not_mine)
    ];
    in_range = k.in_range;
  }

  -- An operation that leaves the claims alone.
  pub quiet :
      (c' : Claims) (p' : Phase)
      → c' ≡ c
      → Fits n p' (lookup n c.1)
      → own p' (lookup n c.1) ≡ own p (lookup n c.1)
      → Advances n c p c' p'
  quiet c' p' kept fits same = rw kept (same_slots c.1 p' (λ m _. refl) fits same)

  -- The operation that takes the free slot `i`.
  pub taking :
      (i : ℕ) (p' : Phase)
      → contains i c.0.used ≡ false
      → i < c.0.max_slots
      → Fits n p' (lookup n c.1)
      → own p (lookup n c.1) ≡ none
      → own p' (lookup n c.1) ≡ some i
      → Advances n c p (record c.0 { used = i ∷ c.0.used }, c.1) p'
  taking i p' free below fits nothing now = record {
    others = λ m _. refl;
    fits = fits;
    gains = λ j h. inr (ground (arith, now, h, free));
    used = λ j h. ground (arith, now, h);
    stays = λ j h ne. ground (arith, h);
    accounted = λ j h. elim (Bool-cases (j == i)) [
      | inl same ↦ inl (now ∙ ap some (sym ((==_iff j i).0 same)))
      | inr differ ↦ inr (ground (arith, h), λ e. absurd (ground (arith, nothing, e)))
    ];
    in_range = λ j h. elim (Bool-cases (j == i)) [
      | inl same ↦ rw ((==_iff j i).0 same) below
      | inr differ ↦ k.in_range j (ground (arith, h))
    ];
  }

  -- The operation that gives back the slot `i` of the thread.
  pub dropping :
      (i : ℕ) (p' : Phase)
      → Fits n p' (lookup n c.1)
      → own p (lookup n c.1) ≡ some i
      → own p' (lookup n c.1) ≡ none
      → Advances n c p (record c.0 { used = discard i c.0.used }, c.1) p'
  dropping i p' fits before nothing = record {
    others = λ m _. refl;
    fits = fits;
    gains = λ j h. absurd (ground (arith, nothing, h));
    used = λ j h. absurd (ground (arith, nothing, h));
    stays = λ j h ne. elim (Bool-cases (j == i)) [
      | inl same ↦ absurd (ne (before ∙ ap some (sym ((==_iff j i).0 same))))
      | inr differ ↦ ground (arith, contains-discard i j c.0.used)
    ];
    accounted = λ j h.
        let (differ, taken) = not_discarded i j c.0.used h in
        inr (taken, λ e. absurd (ground (arith, before, e, ==_iff j i)));
    in_range = λ j h. k.in_range j (not_discarded i j c.0.used h).1;
  }

-- `p'` is as sound as `p` where the claims stay.
abbrev pub SameFor : String → Phase → Option Identity → Phase → Type 0
SameFor n p o p' = Fits n p' o × (own p' o ≡ own p o)

-- An operation that leaves the claims alone, whether it returns or raises.
pub goes-Advances :
    {A : Type 0} (n : String) (m m' : Manager) (p : Phase) (k : Knows n (claims m) p)
    → (r : Result A) (next : A → Phase) (failed : Phase) → claims m' ≡ claims m
    → ((a : A) → r ≡ ok a → SameFor n p (lookup n (claims m).1) (next a))
    → ((e : Exn) → r ≡ err e → SameFor n p (lookup n (claims m).1) failed)
    → let (m1, p1) = goes (r, m') next failed in Advances n (claims m) p (claims m1) p1
goes-Advances n m m' p k (ok a) next failed kept good bad =
    let (fits, same) = good a refl in quiet n (claims m) p k (claims m') (next a) kept fits same
goes-Advances n m m' p k (err e) next failed kept good bad =
    let (fits, same) = bad e refl in quiet n (claims m) p k (claims m') failed kept fits same
