-- ===== src/Text/Laws.antt =====
-- What the operations on texts keep.
use myzerossl.Prelude.{
  ℕ, ◌-◌, Bool, true, false, [], ◌∷◌, ◌++◌, length, drop, ◌≡◌, refl, arith, ◌≢◌, All, length-append,
}
use myzerossl.Text.{
  Text, trim_left, trim_right, keep_from_right, trim_space, is_space, has_prefix, has_suffix, cut,
}

-- A text that does not begin or end with a character of the cutset is left alone.
module _ (cutset : ℕ → Bool) where
  pub trim_right-fixed_cons :
      (c : ℕ) (s : Text) → s ≢ [] → trim_right cutset s ≡ s → trim_right cutset (c ∷ s) ≡ c ∷ s
  unfolding trim_right
  trim_right-fixed_cons c [] h e = absurd (h refl)
  trim_right-fixed_cons c (d ∷ s) h e = rw e

  -- nothing in the cutset: nothing is trimmed
  pub trim_right_clean : (s : Text) → All (λ c. cutset c ≡ false) s → trim_right cutset s ≡ s
  unfolding trim_right
  trim_right_clean [] h = refl
  trim_right_clean (c ∷ s) (hc, hs) = rw (trim_right_clean s hs) (keep c s hc)
    where
      keep : (c : ℕ) (s : Text) → cutset c ≡ false → keep_from_right cutset c s ≡ c ∷ s
      keep c [] h = rw h
      keep c (d ∷ s) h = refl

  pub trim_left_clean : (s : Text) → All (λ c. cutset c ≡ false) s → trim_left cutset s ≡ s
  unfolding trim_left
  trim_left_clean [] h = refl
  trim_left_clean (c ∷ s) (hc, hs) = rw hc

pub trim_space_clean : (s : Text) → All (λ c. is_space c ≡ false) s → trim_space s ≡ s
unfolding trim_space
trim_space_clean s h = rw (trim_left_clean is_space s h) (trim_right_clean is_space s h)

-- What `cut` returns spells the text.
pub cut_spells :
    (sep : ℕ) (s : Text)
    → (cut sep s).found ≡ true
    → (cut sep s).before ++ sep ∷ (cut sep s).after ≡ s
unfolding cut
cut_spells sep [] h = cc
cut_spells sep (c ∷ s) h = ground (arith, cut_spells sep s)

-- A text without the separator is not cut, and the first separator ends the first half.
pub cut-append :
    (sep : ℕ) (b a : Text)
    → All (λ c. c ≢ sep) b
    → cut sep (b ++ sep ∷ a) ≡ record { before = b; after = a; found = true }
unfolding cut
cut-append sep [] a h = ground arith
cut-append sep (c ∷ b) a (hc, hb) = ground (arith, cut-append sep b a hb)

pub has_prefix-append : (p s : Text) → has_prefix p (p ++ s) ≡ true
unfolding has_prefix
has_prefix-append [] s = refl
has_prefix-append (c ∷ p) s = ground (arith, has_prefix-append p s)

-- A prefix is what the text begins with.
pub has_prefix_sound : (p s : Text) → has_prefix p s ≡ true → p ++ drop (length p) s ≡ s
unfolding has_prefix
has_prefix_sound [] s h = refl
has_prefix_sound (c ∷ p) [] h = cc
has_prefix_sound (c ∷ p) (d ∷ s) h = ground (arith, has_prefix_sound p s)

drop-length-append : (a b : Text) → drop (length a) (a ++ b) ≡ b
drop-length-append [] b = refl
drop-length-append (c ∷ a) b = drop-length-append a b

pub has_suffix-append : (a p : Text) → has_suffix p (a ++ p) ≡ true
unfolding has_suffix
has_suffix-append a p =
    let e : length (a ++ p) - length p ≡ length a = omega (arith, length-append a p) in
    rw (e, drop-length-append a p) (ground (arith, length-append a p))
