-- ===== src/Client/Session/Stacking.antt =====
-- A window is not above and below the others at once; sizes of the metadata fit `u32`.

use rust_xpra.Prelude.{
  ℕ, ◌≡◌, ◌≤◌, ◌<◌, ◌^◌, refl, ap, ◌∙◌, Bool, true, false, ◌&&◌, Option, none, some, Option-cases,
  inl, inr, String, arith, some_injective,
}
use rust_xpra.Net.Packet.{Yaml, item, integer, array}
use rust_xpra.Prelude.Int.{pos}
use rust_xpra.Client.Session.{XpraWindow}
use rust_xpra.Client.Session.Metadata.{
  WindowMetadataUpdate, stacked, set_above, set_below, updated, as_size, as_pair, metadata_pair,
  entry_of,
}

and_false : (b : Bool) → b && false ≡ false
and_false true = refl
and_false false = refl

set_above_exclusive :
    (b : Bool) (w : XpraWindow) → (set_above b w).above && (set_above b w).below ≡ false
unfolding set_above
set_above_exclusive true w = refl
set_above_exclusive false w = refl

set_below_exclusive :
    (b : Bool) (w : XpraWindow) → (set_below b w).above && (set_below b w).below ≡ false
unfolding set_below
set_below_exclusive true w = refl
set_below_exclusive false w = and_false w.above

-- Whatever metadata come for a window that is not both above and below, it is not both afterwards.
pub stacked_exclusive :
    (update : WindowMetadataUpdate) (w : XpraWindow)
    → w.above && w.below ≡ false
    → (stacked update w).above && (stacked update w).below ≡ false
unfolding stacked
stacked_exclusive update w h =
    below_step update.below (updated update.above set_above w) (above_step update.above)
  where
    above_step :
        (o : Option Bool) → (updated o set_above w).above && (updated o set_above w).below ≡ false
    above_step none = h
    above_step (some b) = set_above_exclusive b w

    below_step :
        (o : Option Bool) (v : XpraWindow)
        → v.above && v.below ≡ false
        → (updated o set_below v).above && (updated o set_below v).below ≡ false
    below_step none v g = g
    below_step (some b) v g = set_below_exclusive b v

as_size_bounds : (y : Yaml) (n : ℕ) → as_size y ≡ some n → (1 ≤ n) × (n < 2 ^ 32)
as_size_bounds (integer (pos m)) n h = ground arith
as_size_bounds _ n h = cc h

no_pair : {p : ℕ × ℕ} → ¬ (none ≡ some p)
no_pair e = cc e

as_pair_bounds :
    (o : Option Yaml) (w h : ℕ)
    → as_pair o ≡ some (w, h)
    → ((1 ≤ w) × (w < 2 ^ 32)) × ((1 ≤ h) × (h < 2 ^ 32))
unfolding as_pair
as_pair_bounds (some (array (item a (item b rest)))) w h e = elim (Option-cases (as_size a)) [
  | inl n ↦ absurd (no_pair (rw n at e))
  | inr (v, f) ↦ elim (Option-cases (as_size b)) [
    | inl n ↦ absurd (no_pair (rw (f, n) at e))
    | inr (g, k) ↦
        let same : (v, g) ≡ (w, h) = some_injective (rw (f, k) at e) in
        (
          as_size_bounds a w (f ∙ ap (λ (x : ℕ × ℕ). some x.0) same),
          as_size_bounds b h (k ∙ ap (λ (x : ℕ × ℕ). some x.1) same),
        )
  ]
]
as_pair_bounds _ w h e = cc e

-- A pair of the metadata is two sizes from 1 up to the greatest `u32`.
pub metadata_pair_bounds :
    (metadata : Yaml) (key : String) (w h : ℕ)
    → metadata_pair metadata key ≡ some (w, h)
    → ((1 ≤ w) × (w < 2 ^ 32)) × ((1 ≤ h) × (h < 2 ^ 32))
unfolding metadata_pair
metadata_pair_bounds metadata key w h e = as_pair_bounds (entry_of metadata key) w h e
