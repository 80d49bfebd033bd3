-- ===== src/Text/Trim.antt =====
-- Trimming twice is trimming once.
use plant_shop.Base.{ℕ, ◌≡◌, refl, Bool, true, not, [], ◌∷◌, arith}
use plant_shop.Text.{Text, is_space, trim_left, trim_right, trim_space, keep_before}

-- The text does not begin with a space.
abbrev begins_clean : Text → Bool
begins_clean [] = true
begins_clean (c ∷ s) = not (is_space c)

trim_left-clean : (s : Text) → begins_clean (trim_left s) ≡ true
unfolding trim_left
trim_left-clean [] = refl
trim_left-clean (c ∷ s) = ground (arith, trim_left-clean s)

trim_left_of_clean : (s : Text) → begins_clean s ≡ true → trim_left s ≡ s
unfolding trim_left
trim_left_of_clean [] h = refl
trim_left_of_clean (c ∷ s) h = ground arith

trim_right-clean : (s : Text) → begins_clean s ≡ true → begins_clean (trim_right s) ≡ true
unfolding trim_right
trim_right-clean [] h = refl
trim_right-clean (c ∷ s) h = ground arith

trim_right-keep_before :
    (c : ℕ) (s : Text) → trim_right s ≡ s → trim_right (keep_before c s) ≡ keep_before c s
unfolding trim_right
trim_right-keep_before c [] h = ground arith
trim_right-keep_before c (d ∷ s) h = ground arith

trim_right_idem : (s : Text) → trim_right (trim_right s) ≡ trim_right s
unfolding trim_right
trim_right_idem [] = refl
trim_right_idem (c ∷ s) = trim_right-keep_before c (trim_right s) (trim_right_idem s)

pub trim_space_idem : (s : Text) → trim_space (trim_space s) ≡ trim_space s
unfolding trim_space
trim_space_idem s =
    rw
      (trim_left_of_clean (trim_right (trim_left s))
        (trim_right-clean (trim_left s) (trim_left-clean s)))
      (trim_right_idem (trim_left s))
