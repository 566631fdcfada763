-- ===== src/Enum/Laws.antt =====
-- What the labels of web/client/src/enum/task.js name.
use gonitor.Prelude.{
  Bool, true, false, Option, none, some, leb, refl, zero, suc, ℕ, String, if◌then◌else◌, ◌==◌,
  nat_eq, string_eq, ◌≡◌, ap, ◌∙◌, arith,
}
use gonitor.Enum.{low, medium, high, critical, priority_label}

-- The priority that a label names.
abbrev pub priority_named : String → Option ℕ
priority_named label =
    if label == "Low"
    then some low
    else if label == "Medium"
    then some medium
    else if label == "High"
    then some high
    else if label == "Critical"
    then some critical
    else none

else-branch : {A : Type 0} (b : Bool) (x : A) {y : A} → b ≡ false → (if b then x else y) ≡ y
else-branch true x h = absurd (ground arith)
else-branch false x h = refl

unknown-label : (n : ℕ) → priority_label (suc (suc (suc (suc n)))) ≡ "Unknown"
unfolding priority_label
unknown-label n =
    let p = suc (suc (suc (suc n))) in
    else-branch (p == low) "Low" (ground arith)
    ∙ else-branch (p == medium) "Medium" (ground arith)
    ∙ else-branch (p == high) "High" (ground arith)
    ∙ else-branch (p == critical) "Critical" (ground arith)

-- A label names exactly the priority that it was made from, and the label of a number that is no
-- priority names none.
pub priority_named-priority_label :
    (p : ℕ) → priority_named (priority_label p) ≡ (if leb p critical then some p else none)
unfolding priority_label
priority_named-priority_label zero = refl
priority_named-priority_label (suc zero) = refl
priority_named-priority_label (suc (suc zero)) = refl
priority_named-priority_label (suc (suc (suc zero))) = refl
priority_named-priority_label (suc (suc (suc (suc n)))) =
    ap priority_named (unknown-label n) ∙ ground arith
