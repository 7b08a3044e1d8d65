-- ===== src/Instances/Names/Laws.antt =====
-- What the pattern for names accepts.
use vanpilot.Prelude.{
  ℕ, true, ◌≡◌, ◌↔◌, ◌⊎◌, refl, inl, inr, ap, List, [], ◌∷◌, ◌++◌, arith, ◌==◌, nat_eq, Bool-cases,
}
use vanpilot.Instances.Names.{is_alnum, is_name_char, match_rest, match_name}

abbrev pub AllNameChars : List ℕ → Type 0
AllNameChars [] = Unit {0}
AllNameChars (c ∷ cs) = (is_name_char c ≡ true) × AllNameChars cs

-- A name of the documented form: an alphanumeric character and then characters of the class.
abbrev pub IsPlain : List ℕ → Type 0
IsPlain [] = ⊥
IsPlain (c ∷ cs) = (is_alnum c ≡ true) × AllNameChars cs

-- `cs` is a text of the form `P`, or one followed by a single newline.
abbrev pub OrNewline : (List ℕ → Type 0) → List ℕ → Type 0
OrNewline P cs = P cs ⊎ ((front : List ℕ) × (cs ≡ front ++ 10 ∷ []) × P front)

match_rest-OrNewline : (cs : List ℕ) → match_rest cs ≡ true → OrNewline AllNameChars cs
unfolding match_rest
match_rest-OrNewline [] h = inl tt
match_rest-OrNewline (c ∷ []) h = elim (Bool-cases (c == 10)) [
  | inl newline ↦ inr ([], ground arith, tt)
  | inr other ↦ inl (ground arith, tt)
]
match_rest-OrNewline (c ∷ d ∷ cs) h =
    let ih : OrNewline AllNameChars (d ∷ cs) = match_rest-OrNewline (d ∷ cs) (ground arith) in
    elim ih [
      | inl all ↦ inl (ground arith, all)
      | inr (front, e, all) ↦ inr (c ∷ front, ap (λ l. c ∷ l) e, (ground arith, all))
    ]

match_rest_plain : (cs : List ℕ) → AllNameChars cs → match_rest cs ≡ true
unfolding match_rest
match_rest_plain [] h = refl
match_rest_plain (c ∷ cs) h = ground (arith, match_rest_plain cs h.1)

match_rest_newline : (cs : List ℕ) → AllNameChars cs → match_rest (cs ++ 10 ∷ []) ≡ true
unfolding match_rest
match_rest_newline [] h = refl
match_rest_newline (c ∷ cs) h = ground (arith, match_rest_newline cs h.1)

match_name-OrNewline : (cs : List ℕ) → match_name cs ≡ true → OrNewline IsPlain cs
unfolding match_name
match_name-OrNewline [] h = cc
match_name-OrNewline (c ∷ cs) h =
    let rest : OrNewline AllNameChars cs = match_rest-OrNewline cs (ground arith) in
    elim rest [
      | inl all ↦ inl (ground arith, all)
      | inr (front, e, all) ↦ inr (c ∷ front, ap (λ l. c ∷ l) e, (ground arith, all))
    ]

match_name_plain : (cs : List ℕ) → IsPlain cs → match_name cs ≡ true
unfolding match_name
match_name_plain [] h = absurd h
match_name_plain (c ∷ cs) h = ground (arith, match_rest_plain cs h.1)

match_name_newline : (front : List ℕ) → IsPlain front → match_name (front ++ 10 ∷ []) ≡ true
unfolding match_name
match_name_newline [] h = absurd h
match_name_newline (c ∷ cs) h = ground (arith, match_rest_newline cs h.1)

-- The pattern for names accepts exactly the names of the documented form and those names with
-- one newline after them.
pub match_name_iff : (cs : List ℕ) → (match_name cs ≡ true) ↔ OrNewline IsPlain cs
match_name_iff cs = (
  match_name-OrNewline cs,
  λ h. elim h [
    | inl plain ↦ match_name_plain cs plain
    | inr (front, e, plain) ↦ rw e (match_name_newline front plain)
  ],
)
