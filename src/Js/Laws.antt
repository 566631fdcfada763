-- ===== src/Js/Laws.antt =====
-- What `split(",")` does with joined texts (the tags of the form of a task).
use gonitor.Prelude.{List, [], ◌∷◌, String, nat_eq, concat, ◌≡◌, ◌≢◌, refl, ap, ◌∙◌, arith, All}
use Prim.Native.Char.{code}
use text.Mathlib.TextLemmas.{nil-append, cons-append}
use gonitor.Js.{split_commas, join_commas}

abbrev pub NoComma : String → Type 0
NoComma String.[] = Unit {0}
NoComma (String.◌∷◌ c s) = (code c ≢ b',') × NoComma s

split_commas-NoComma : (s : String) → NoComma s → split_commas s ≡ s ∷ []
unfolding split_commas
split_commas-NoComma String.[] h = refl
split_commas-NoComma (String.◌∷◌ c s) h = ground (arith, split_commas-NoComma s h.1)

split_commas-concat :
    (s r : String) → NoComma s → split_commas (concat s (concat "," r)) ≡ s ∷ split_commas r
unfolding split_commas
split_commas-concat String.[] r h =
    ap split_commas
      (nil-append (concat "," r) ∙ cons-append "," "" r ∙ ap (String.◌∷◌ ",") (nil-append r))
split_commas-concat (String.◌∷◌ c s) r h =
    ap split_commas (cons-append c s (concat "," r)) ∙ ground (arith, split_commas-concat s r h.1)

-- Texts without a comma come back from the joined text, in order.
pub split_commas-join_commas :
    (s : String) (ts : List String)
    → All NoComma (s ∷ ts)
    → split_commas (join_commas (s ∷ ts)) ≡ s ∷ ts
unfolding join_commas
split_commas-join_commas s [] h = split_commas-NoComma s h.0
split_commas-join_commas s (t ∷ ts) h =
    split_commas-concat s (join_commas (t ∷ ts)) h.0 ∙ ap (s ∷◌) (split_commas-join_commas t ts h.1)
