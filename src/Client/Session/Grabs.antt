-- ===== src/Client/Session/Grabs.antt =====
-- The pointer is grabbed by a window that is there.
use rust_xpra.Prelude.{
  ℕ, ◌≡◌, refl, ◌∙◌, false, ◌==◌, Bool-cases, ◌⊎◌, inl, inr, none, some, Option-cases, List, [],
  ◌∷◌, ◌++◌, arith,
}
use rust_xpra.Net.Packet.{Packet, get_u64}
use rust_xpra.Client.Session.{
  Session, XpraWindow, ◌>>=◌, pure, lift, gets, assign, emit, match_option, find_window,
  remove_window, set_cursor_grab, released, called,
}
use rust_xpra.Client.Session.Windowing.{process_lost_window, release_pointer_grab, is_window}

-- No window has the pointer, or one of the map.
pub data IsHeld (s : Session) : Type 0 where
  free : s.pointer_grabbed ≡ none → IsHeld s
  held :
      (wid : ℕ) (w : XpraWindow)
      → s.pointer_grabbed ≡ some wid
      → find_window s.windows wid ≡ some w
      → IsHeld s

find_window-remove_window_same :
    (ws : List (ℕ × XpraWindow)) (i : ℕ) → find_window (remove_window ws i) i ≡ none
find_window-remove_window_same [] i = refl
find_window-remove_window_same ((j, w) ∷ ws) i = elim (Bool-cases (j == i)) [
  | inl e ↦ rw e (find_window-remove_window_same ws i)
  | inr e ↦ rw (e, e) (find_window-remove_window_same ws i)
]

find_window-remove_window :
    (ws : List (ℕ × XpraWindow)) (i k : ℕ)
    → (i == k) ≡ false
    → find_window (remove_window ws i) k ≡ find_window ws k
find_window-remove_window [] i k n = refl
find_window-remove_window ((j, w) ∷ ws) i k n = elim (Bool-cases (j == i)) [
  | inl e ↦
      let jk : (j == k) ≡ false = ground arith in rw (e, jk) (find_window-remove_window ws i k n)
  | inr e ↦ elim (Bool-cases (j == k)) [
    | inl f ↦ rw (e, f) refl
    | inr f ↦ rw (e, f) (find_window-remove_window ws i k n)
  ]
]

abbrev Lost : Session → ℕ → Session → Type 0
Lost s wid t =
    (t.windows ≡ remove_window s.windows wid)
    × ((t.pointer_grabbed ≡ none)
        ⊎ ((t.pointer_grabbed ≡ s.pointer_grabbed) × (is_window s.pointer_grabbed wid ≡ false)))

process_lost_window_lem :
    (s : Session) (p : Packet) (wid : ℕ)
    → get_u64 p 1 ≡ some wid
    → (t : Session) × (process_lost_window p s ≡ some (tt, t)) × Lost s wid t
unfolding process_lost_window release_pointer_grab ◌>>=◌ gets lift pure assign emit match_option
process_lost_window_lem s p wid e =
    let ws = remove_window s.windows wid in
    elim (Option-cases s.pointer_grabbed) [
      | inl n ↦ (record s { windows = ws }, rw (e, n) refl, (refl, inl n))
      | inr (i, g) ↦ elim (Bool-cases (i == wid)) [
        | inr ne ↦ (record s { windows = ws }, rw (e, g, ne) refl, (refl, inr (refl, rw g ne)))
        | inl eq ↦ elim (Option-cases (find_window s.windows i)) [
          | inl f ↦ (
            record s { pointer_grabbed = none; windows = ws },
            rw (e, g, eq, f) refl,
            (refl, inl refl),
          )
          | inr (w, f) ↦ (
            record s {
              pointer_grabbed = none;
              windows = ws;
              effects = s.effects ++ (called i (set_cursor_grab released) ∷ []);
            },
            rw (e, g, eq, f) refl,
            (refl, inl refl),
          )
        ]
      ]
    ]

-- A window that is lost is gone from the map, and the pointer is not left grabbed by a window that is
-- not there.
pub process_lost_window-IsHeld :
    (s : Session) (p : Packet) (wid : ℕ)
    → get_u64 p 1 ≡ some wid
    → IsHeld s
    → (t : Session) × (process_lost_window p s ≡ some (tt, t))
      × (find_window t.windows wid ≡ none)
      × IsHeld t
process_lost_window-IsHeld s p wid e h =
    let (t, f, (ws, grab)) = process_lost_window_lem s p wid e in
    (t, f, rw ws (find_window-remove_window_same s.windows wid), still t ws grab h)
  where
    still :
        (t : Session)
        → t.windows ≡ remove_window s.windows wid
        → (t.pointer_grabbed ≡ none)
          ⊎ ((t.pointer_grabbed ≡ s.pointer_grabbed) × (is_window s.pointer_grabbed wid ≡ false))
        → IsHeld s
        → IsHeld t
    still t ws (inl n) h = free n
    still t ws (inr (same, n)) (free g) = free (same ∙ g)
    still t ws (inr (same, n)) (held i w g found) =
        let other : (i == wid) ≡ false = rw g at n in
        let back : (wid == i) ≡ false = ground arith in
        held i w (same ∙ g) (rw (ws, find_window-remove_window s.windows wid i back) found)
