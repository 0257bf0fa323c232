-- ===== src/Text.antt =====
-- Texts of the program, as the lists of their code points, and the operations of Python's `str` that
-- the other modules share. A position in a text is the text that follows it.
use Prim.Native.Char.{code}
use llm_plug.Common.{
  ℕ, zero, suc, ◌-◌, String, Bool, true, false, ◌&&◌, Option, none, some, List, [], ◌∷◌, ◌++◌,
  nat_eq, ◌==◌, if◌then◌else◌, length, ◌≡◌, refl, arith, ◌↔◌, Eq,
}

abbrev pub Text : Type 0
Text = List ℕ

abbrev pub codes : String → Text
codes String.[] = []
codes (String.◌∷◌ c s) = code c ∷ codes s

-- text[:n] and text[n:]
unfoldable pub take : ℕ → Text → Text
take zero t = []
take (suc n) [] = []
take (suc n) (c ∷ t) = c ∷ take n t

unfoldable pub drop : ℕ → Text → Text
drop zero t = t
drop (suc n) [] = []
drop (suc n) (c ∷ t) = drop n t

unfoldable pub starts_with : Text → Text → Bool
starts_with [] t = true
starts_with (c ∷ tag) [] = false
starts_with (c ∷ tag) (d ∷ t) = c == d && starts_with tag t

unfoldable pub same_text : Text → Text → Bool
same_text [] [] = true
same_text [] (d ∷ t) = false
same_text (c ∷ s) [] = false
same_text (c ∷ s) (d ∷ t) = c == d && same_text s t

unfoldable pub ends_with : Text → Text → Bool
unfolding drop same_text
ends_with end t = same_text end (drop (length t - length end) t)

unfoldable pub put_before : ℕ → Option (Text × Text) → Option (Text × Text)
put_before c none = none
put_before c (some (before, found)) = some (c ∷ before, found)

-- text.find(tag): what precedes the first occurrence of a tag, and the text that starts with it.
unfoldable pub find : Text → Text → Option (Text × Text)
unfolding starts_with put_before
find tag [] = none
find tag (c ∷ t) = if starts_with tag (c ∷ t) then some ([], c ∷ t) else put_before c (find tag t)

pub take-drop : (n : ℕ) (t : Text) → take n t ++ drop n t ≡ t
unfolding take drop
take-drop zero t = refl
take-drop (suc n) [] = refl
take-drop (suc n) (c ∷ t) = cc (take-drop n t)

pub append_nil : (t : Text) → t ++ [] ≡ t
append_nil [] = refl
append_nil (c ∷ t) = cc (append_nil t)

pub starts_with-append :
    (tag s t : Text) → starts_with tag s ≡ true → starts_with tag (s ++ t) ≡ true
unfolding starts_with
starts_with-append [] s t h = refl
starts_with-append (c ∷ tag) [] t h = cc
starts_with-append (c ∷ tag) (d ∷ s) t h = ground (arith, starts_with-append tag s t)

pub same_text_iff : (s t : Text) → (same_text s t ≡ true) ↔ (s ≡ t)
unfolding same_text
same_text_iff [] [] = ((λ h. refl), (λ e. refl))
same_text_iff [] (d ∷ t) = ((λ h. cc), (λ e. cc))
same_text_iff (c ∷ s) [] = ((λ h. cc), (λ e. cc))
same_text_iff (c ∷ s) (d ∷ t) = ground (arith, same_text_iff s t)

instance abbrev pub text_eq : Eq Text
text_eq = record { beq = same_text; beq_iff = same_text_iff }
