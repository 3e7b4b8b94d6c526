-- ===== src/Client/Session/Metadata.antt =====
-- The metadata of a window, and what is made of them (src/client/client.rs).
use mathlib.Core.Option
use rust_xpra.Prelude.{
  ℕ, ◌^◌, ◌==◌, Bool, true, false, not, ◌&&◌, ◌||◌, Option, none, some, if◌then◌else◌, Bytes,
  String, codes, leb,
}
use rust_xpra.Prelude.Int.{pos}
use rust_xpra.Net.Packet.{Yaml, item, string, boolean, integer, array, hash, get, nonzero}
use rust_xpra.Client.Session.{
  XpraWindow, always_on_top, always_on_bottom, normal, Level, set_title, set_decorations,
  set_min_inner_size, set_max_inner_size, set_resize_increments, set_resizable, set_fullscreen,
  set_maximized, set_minimized, set_window_level, Action, ◌>>◌, pure, match_option, assign, call,
  when, insert_window,
}

pub record WindowSizeConstraints : Type 0 where
  pub minimum : Option (ℕ × ℕ)
  pub maximum : Option (ℕ × ℕ)
  pub increment : Option (ℕ × ℕ)

pub record WindowMetadataUpdate : Type 0 where
  pub title : Option Bytes
  pub decorations : Option Bool
  pub fullscreen : Option Bool
  pub maximized : Option Bool
  pub iconic : Option Bool
  pub above : Option Bool
  pub below : Option Bool
  pub size_constraints : Option WindowSizeConstraints

-- The lookup that the four readers begin with.
abbrev pub entry_of : Yaml → String → Option Yaml
entry_of (hash es) key = get es (codes key)
entry_of _ key = none

abbrev as_hash : Option Yaml → Option Yaml
as_hash (some (hash es)) = some (hash es)
as_hash _ = none

pub metadata_hash : Yaml → String → Option Yaml
metadata_hash metadata key = as_hash (entry_of metadata key)

abbrev as_str : Option Yaml → Option Bytes
as_str (some (string s)) = some s
as_str _ = none

pub metadata_str : Yaml → String → Option Bytes
metadata_str metadata key = as_str (entry_of metadata key)

abbrev as_bool : Option Yaml → Option Bool
as_bool (some (boolean b)) = some b
as_bool (some (integer i)) = some (nonzero i)
as_bool _ = none

pub metadata_bool : Yaml → String → Option Bool
metadata_bool metadata key = as_bool (entry_of metadata key)

-- A size from 1 up to `u32::MAX`
abbrev pub as_size : Yaml → Option ℕ
as_size (integer (pos n)) = if n == 0 || leb (2 ^ 32) n then none else some n
as_size _ = none

abbrev pub both : Option ℕ → Option ℕ → Option (ℕ × ℕ)
both none h = none
both (some w) none = none
both (some w) (some h) = some (w, h)

unfoldable pub as_pair : Option Yaml → Option (ℕ × ℕ)
as_pair (some (array (item w (item h rest)))) = both (as_size w) (as_size h)
as_pair _ = none

unfoldable pub metadata_pair : Yaml → String → Option (ℕ × ℕ)
metadata_pair metadata key = as_pair (entry_of metadata key)

-- `WindowMetadataUpdate::parse`
pub parse : Yaml → WindowMetadataUpdate
parse metadata = record {
  title = metadata_str metadata "title";
  decorations = metadata_bool metadata "decorations";
  fullscreen = metadata_bool metadata "fullscreen";
  maximized = metadata_bool metadata "maximized";
  iconic = metadata_bool metadata "iconic";
  above = metadata_bool metadata "above";
  below = metadata_bool metadata "below";
  size_constraints =
      Option.map
        (λ constraints. record {
          minimum = metadata_pair constraints "minimum-size";
          maximum = metadata_pair constraints "maximum-size";
          increment = metadata_pair constraints "increment";
        })
        (metadata_hash metadata "size-constraints");
}

pub same_size : Option (ℕ × ℕ) → Option (ℕ × ℕ) → Bool
same_size (some (w, h)) (some (v, g)) = (w == v) && (h == g)
same_size _ _ = false

-- `if let Some(value) = o { ... }`
abbrev pub given : {A : Type 0} → Option A → (A → Action Unit) → Action Unit
given o f = match_option o (pure tt) f

unfoldable pub set_above : Bool → XpraWindow → XpraWindow
set_above above w = record w { above = above; below = if above then false else w.below }

unfoldable pub set_below : Bool → XpraWindow → XpraWindow
set_below below w = record w { below = below; above = if below then false else w.above }

abbrev pub updated :
    {A : Type 0} → Option A → (A → XpraWindow → XpraWindow) → XpraWindow → XpraWindow
updated none f w = w
updated (some a) f w = f a w

-- The window after the two flags.
unfoldable pub stacked : WindowMetadataUpdate → XpraWindow → XpraWindow
stacked update w = updated update.below set_below (updated update.above set_above w)

pub level_of : XpraWindow → Level
level_of w = if w.above then always_on_top else if w.below then always_on_bottom else normal

abbrev is_given : Option Bool → Bool
is_given none = false
is_given (some b) = true

unfoldable pub apply_constraints : ℕ → XpraWindow → WindowSizeConstraints → Action Unit
apply_constraints wid w c = do
  call wid (set_min_inner_size c.minimum)
  call wid (set_max_inner_size c.maximum)
  call wid (set_resize_increments c.increment)
  call wid (set_resizable (not w.override_redirect && not (same_size c.minimum c.maximum)))

unfoldable pub apply_window_metadata : ℕ → XpraWindow → WindowMetadataUpdate → Action Unit
apply_window_metadata wid w update = do
  given update.title (λ title. call wid (set_title title))
  given update.decorations
      (λ decorations. call wid (set_decorations (decorations && not w.override_redirect)))
  given update.size_constraints (apply_constraints wid w)
  given update.fullscreen (λ fullscreen. call wid (set_fullscreen fullscreen))
  given update.maximized (λ maximized. call wid (set_maximized maximized))
  given update.iconic (λ iconic. call wid (set_minimized iconic))
  assign (λ s. record s { windows = insert_window s.windows wid (stacked update w) })
  when (is_given update.above || is_given update.below)
      (call wid (set_window_level (level_of (stacked update w))))
