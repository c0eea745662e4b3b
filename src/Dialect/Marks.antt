-- ===== src/Dialect/Marks.antt =====
-- The placeholders of a statement.
use Prim.Native.Nat.{ℕ, ◌+◌}
use mathlib.Core.List.{List, [], ◌++◌, ◌∷◌}
use mathlib.Core.Logic.{inl, inr}
use mathlib.Core.Path.{ap, refl, subst, sym, ◌∙◌, ◌≡◌}
use gemini_web2api_go.Base.Int.{int_eq}
use gemini_web2api_go.Base.Tests.{Bool-cases, nat_eq, ◌==◌}
use gemini_web2api_go.Base.Text.{Text, onto_head, split_on, text_eq}
use gemini_web2api_go.Dialect.{
  DbDialect, dollar, mysql, postgres, question_mark, rebind, rebind_from, sqlite,
}

-- Each part after a placeholder, behind the number of the placeholder.
unfoldable pub weave_rest : (ℕ → Text) → ℕ → List Text → Text
weave_rest decimal n [] = []
weave_rest decimal n (p ∷ ps) = dollar ∷ (decimal (n + 1) ++ (p ++ weave_rest decimal (n + 1) ps))

-- The parts of a statement with numbered placeholders between them.
abbrev pub weave : (ℕ → Text) → ℕ → List Text → Text
weave decimal n [] = []
weave decimal n (p ∷ ps) = p ++ weave_rest decimal n ps

-- A text has at least one part.
split_on-cons : (b : ℕ) (q : Text) → (p : Text) × (ps : List Text) × (split_on b q ≡ p ∷ ps)
unfolding split_on
split_on-cons b [] = ([], [], refl)
split_on-cons b (d ∷ q) = elim (Bool-cases (d == b)) [
  | inl e ↦ ([], split_on b q, rw e)
  | inr e ↦ let (p, ps, h) = split_on-cons b q in (d ∷ p, ps, rw e (ap (onto_head d) h))
]

weave-onto_head :
    (decimal : ℕ → Text) (n b : ℕ) (ps : List Text)
    → weave decimal n (onto_head b ps) ≡ b ∷ weave decimal n ps
unfolding weave_rest
weave-onto_head decimal n b [] = refl
weave-onto_head decimal n b (p ∷ ps) = refl

weave-next :
    (decimal : ℕ → Text) (n : ℕ) (q : Text)
    → weave decimal n ([] ∷ split_on question_mark q)
      ≡ dollar ∷ (decimal (n + 1) ++ weave decimal (n + 1) (split_on question_mark q))
unfolding weave_rest
weave-next decimal n q =
    let (p, ps, h) = split_on-cons question_mark q in
    subst
      (λ parts.
        weave decimal n ([] ∷ parts) ≡ dollar ∷ (decimal (n + 1) ++ weave decimal (n + 1) parts))
      (sym h) refl

rebind_from-weave :
    (decimal : ℕ → Text) (n : ℕ) (q : Text)
    → rebind_from decimal n q ≡ weave decimal n (split_on question_mark q)
unfolding rebind_from split_on weave_rest
rebind_from-weave decimal n [] = refl
rebind_from-weave decimal n (b ∷ q) = elim (Bool-cases (b == question_mark)) [
  | inl e ↦ rw e (
      ap (λ t. dollar ∷ (decimal (n + 1) ++ t)) (rebind_from-weave decimal (n + 1) q)
      ∙ sym (weave-next decimal n q))
  | inr e ↦ rw e (
      ap (λ t. b ∷ t) (rebind_from-weave decimal n q)
      ∙ sym (weave-onto_head decimal n b (split_on question_mark q)))
]

-- For postgres a statement becomes its parts between the question marks with $1, $2 and so on in this
-- order in their places, and nothing else of it changes; for the other databases it stays.
pub rebind-weave :
    (decimal : ℕ → Text) (d : DbDialect) (q : Text)
    → rebind decimal d q
      ≡ elim d [ postgres ↦ weave decimal 0 (split_on question_mark q) | sqlite ↦ q | mysql ↦ q ]
unfolding rebind
rebind-weave decimal postgres q = rebind_from-weave decimal 0 q
rebind-weave decimal sqlite q = refl
rebind-weave decimal mysql q = refl
