-- ===== src/Base/Text/Trim.antt =====
-- Texts of printable ASCII bytes other than the space are not changed by trimming.
use Prim.Native.Nat.{ℕ, zero, suc, ◌≤◌}
use mathlib.Core.Path.{◌≡◌, refl, ap}
use mathlib.Core.Bool.{false}
use mathlib.Core.List.{[], ◌∷◌, reverse, reverse-cons, reverse-reverse}
use native.Mathlib.Omega.{arith}
use mcpx.Base.Lists.{length, drop, All, All-append}
use mcpx.Base.Text.{Bytes, str_eq, trim_by, trim_space, space_width, space_width_back, is_blank}

abbrev pub IsGraphic : ℕ → Type 0
IsGraphic c = (33 ≤ c) × (c ≤ 126)

module _ (P : ℕ → Type 0) where
  All-reverse : (s : Bytes) → All P s → All P (reverse s)
  All-reverse [] h = tt
  All-reverse (c ∷ s) (h, hs) =
      rw reverse-cons (All-append P (reverse s) (c ∷ []) (All-reverse s hs) (h, tt))

  All-drop : (n : ℕ) (s : Bytes) → All P s → All P (drop n s)
  All-drop zero s h = h
  All-drop (suc n) [] h = tt
  All-drop (suc n) (c ∷ s) (h, hs) = All-drop n s hs

  All-trim_by : (width : Bytes → ℕ) (f : ℕ) (s : Bytes) → All P s → All P (trim_by width f s)
  unfolding trim_by
  All-trim_by width zero s h = h
  All-trim_by width (suc f) s h =
      elim (width s)
        as (λ n. All P (elim n [ zero ↦ s | suc n ↦ trim_by width f (drop (suc n) s) ])) [
          | zero ↦ h
          | suc n ↦ All-trim_by width f (drop (suc n) s) (All-drop (suc n) s h)
        ]

  -- Trimming only drops bytes.
  pub All-trim_space : (s : Bytes) → All P s → All P (trim_space s)
  unfolding trim_space
  All-trim_space s h =
      let t = trim_by space_width (length s) s in
      All-reverse _ (
        All-trim_by space_width_back (length t) (reverse t)
          (All-reverse t (All-trim_by space_width (length s) s h)))

width_graphic : (s : Bytes) → All IsGraphic s → space_width s ≡ 0
unfolding space_width
width_graphic [] h = refl
width_graphic (a ∷ []) h = ground arith
width_graphic (a ∷ b ∷ []) h = ground arith
width_graphic (a ∷ b ∷ c ∷ s) h = ground arith

width_back_graphic : (s : Bytes) → All IsGraphic s → space_width_back s ≡ 0
unfolding space_width_back
width_back_graphic [] h = refl
width_back_graphic (a ∷ []) h = width_graphic (a ∷ []) h
width_back_graphic (b ∷ a ∷ []) (hb, (ha, h)) =
    rw (width_graphic (b ∷ []) (hb, tt), width_graphic (a ∷ b ∷ []) (ha, (hb, tt)))
width_back_graphic (c ∷ b ∷ a ∷ s) (hc, (hb, (ha, h))) = rw (
  width_graphic (c ∷ []) (hc, tt),
  width_graphic (b ∷ c ∷ []) (hb, (hc, tt)),
  width_graphic (a ∷ b ∷ c ∷ []) (ha, (hb, (hc, tt))),
)

trim_by-graphic : (width : Bytes → ℕ) (f : ℕ) (s : Bytes) → width s ≡ 0 → trim_by width f s ≡ s
unfolding trim_by
trim_by-graphic width zero s h = refl
trim_by-graphic width (suc f) s h = rw (h, trim_by)

pub trim_space-graphic : (s : Bytes) → All IsGraphic s → trim_space s ≡ s
unfolding trim_space
trim_space-graphic s h = rw (trim_by-graphic space_width (length s) s (width_graphic s h)) (
    rw
      (trim_by-graphic space_width_back (length s) (reverse s)
        (width_back_graphic (reverse s) (All-reverse IsGraphic s h)))
      (reverse-reverse s))

pub is_blank-graphic : (c : ℕ) (s : Bytes) → All IsGraphic (c ∷ s) → is_blank (c ∷ s) ≡ false
unfolding is_blank
is_blank-graphic c s h = ap (λ (t : Bytes). str_eq t []) (trim_space-graphic (c ∷ s) h)
