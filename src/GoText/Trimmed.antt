-- ===== src/GoText/Trimmed.antt =====
-- strings.TrimSpace on a text that is trimmed already.
use pocket_mvp_backend.Prelude.{
  ◌≡◌, ◌≢◌, ◌⊎◌, refl, sym, subst, ap, ◌∙◌, Bool, true, false, not, Bool-cases, inl, inr, String,
  arith, ◌==◌, eq_iff,
}
use pocket_mvp_backend.GoText.{is_space, is_empty, trim_left, trim_right, trim_space}

false-true : false ≢ true
false-true h = cc

abbrev starts_clean : String → Bool
starts_clean String.[] = false
starts_clean (String.◌∷◌ c s) = not (is_space c)

trim_left-clean : (s : String) → (trim_left s ≡ "") ⊎ (starts_clean (trim_left s) ≡ true)
unfolding trim_left
trim_left-clean String.[] = inl refl
trim_left-clean (String.◌∷◌ c s) = elim (Bool-cases (is_space c)) [
  | inl space ↦ rw space (trim_left-clean s)
  | inr other_char ↦ rw other_char (inr (ground arith))
]

trim_left-kept : (s : String) → starts_clean s ≡ true → trim_left s ≡ s
unfolding trim_left
trim_left-kept String.[] h = cc
trim_left-kept (String.◌∷◌ c s) h = ground arith

trim_right-clean : (s : String) → starts_clean s ≡ true → starts_clean (trim_right s) ≡ true
unfolding trim_right
trim_right-clean String.[] h = cc
trim_right-clean (String.◌∷◌ c s) h = elim (Bool-cases (is_empty (trim_right s))) [
  | inl last ↦ ground arith
  | inr more ↦ ground arith
]

clean-filled : (s : String) → starts_clean s ≡ true → (s == "") ≡ false
clean-filled s h = elim (Bool-cases (s == "")) [
  | inl empty ↦ absurd (false-true (sym (ap starts_clean ((eq_iff s "").0 empty)) ∙ h))
  | inr filled ↦ filled
]

-- What is not blank is not blank once it is trimmed.
pub trim_space-filled :
    (s : String) → (trim_space s == "") ≡ false → (trim_space (trim_space s) == "") ≡ false
unfolding trim_space
trim_space-filled s h = elim (trim_left-clean s) [
  | inl blank ↦ absurd (false-true (sym h ∙ ap (λ t. trim_right t == "") blank))
  | inr clean ↦
      let right = trim_right-clean (trim_left s) clean in
      clean-filled _ (
        trim_right-clean _
          (subst (λ t. starts_clean t ≡ true) (sym (trim_left-kept _ right)) right))
]
