-- ===== src/Client/Session/Windowing.antt =====
-- The handlers of windows, the pointer and notifications (src/client/client.rs).
use mathlib.Core.Option
use rust_xpra.Prelude.{
  ℕ, ◌^◌, ◌-◌, ◌%◌, min, max, ◌==◌, Bool, true, false, not, ◌&&◌, Option, none, some, [],
  if◌then◌else◌, Bytes, codes, bytes_eq, leb, rsplit_once, get_elem?,
}
use rust_xpra.Prelude.Int.{ℤ, pos}
use rust_xpra.Net.Packet.{Packet, len, get_u32, get_i32, get_u64, get_str, get_bool, get_bytes}
use rust_xpra.Client.Session.{
  Cursor, XpraWindow, confined, locked, released, create, set_minimized, move_resize, drag,
  focus_window, set_cursor, set_window_icon, set_cursor_grab, rang, Env, Action, ◌>>=◌, ◌>>◌, pure,
  lift, gets, assign, match_option, emit, find_window, remove_window, call, call_each, when,
}
use rust_xpra.Client.Session.Send.{send_window_map}
use rust_xpra.Client.Session.Metadata.{WindowMetadataUpdate, parse, given, apply_window_metadata}

abbrev pub is_window : Option ℕ → ℕ → Bool
is_window none wid = false
is_window (some i) wid = i == wid

-- The handlers that look a window up, and only log where it is missing.
abbrev pub with_window : ℕ → (XpraWindow → Action Unit) → Action Unit
with_window wid f = do
  windows ← gets (λ s. s.windows)
  match_option (find_window windows wid) (pure tt) f

unfoldable pub release_pointer_grab : Action Unit
release_pointer_grab = do
  grabbed ← gets (λ s. s.pointer_grabbed)
  match_option grabbed (pure tt) (λ wid. do
    assign (λ s. record s { pointer_grabbed = none })
    with_window wid (λ window. call wid (set_cursor_grab released)))

-- `None` is a move, the edges are numbered as the packet does.
pub drag_of : ℕ → Option (Option ℕ)
drag_of direction =
    if direction == 8 then some none else if leb direction 7 then some (some direction) else none

unfoldable pub process_initiate_moveresize : Packet → Action Unit
process_initiate_moveresize p = do
  wid ← lift (get_u64 p 1)
  direction ← lift (get_u32 p 4)
  with_window wid (λ window. given (drag_of direction) (λ d. call wid (drag d)))

unfoldable pub process_window_move_resize : Packet → Action Unit
process_window_move_resize p = do
  wid ← lift (get_u64 p 1)
  with_window wid (λ window. do
    x ← lift (get_i32 p 2)
    y ← lift (get_i32 p 3)
    w ← lift (get_u32 p 4)
    h ← lift (get_u32 p 5)
    call wid (move_resize x y (max w 1) (max h 1)))

unfoldable pub process_show_desktop : Packet → Action Unit
process_show_desktop p = do
  show ← lift (if leb 2 (len p) then get_bool p 1 else some false)
  windows ← gets (λ s. s.windows)
  call_each windows (set_minimized show)

-- It only logs.
unfoldable pub process_pointer_position : Packet → Action Unit
process_pointer_position p =
    if leb 4 (len p)
    then (do wid ← lift (get_u64 p 1); x ← lift (get_i32 p 2); y ← lift (get_i32 p 3); pure tt)
    else pure tt

unfoldable pub process_pointer_ungrab : Packet → Action Unit
process_pointer_ungrab p = release_pointer_grab

-- They only log.
unfoldable pub process_notify_show : Packet → Action Unit
process_notify_show p = do
  app_name ← lift (get_str p 3)
  summary ← lift (get_str p 6)
  body ← lift (get_str p 7)
  pure tt

unfoldable pub process_notify_close : Packet → Action Unit
process_notify_close p = do notification_id ← lift (get_u64 p 1); pure tt

unfoldable pub process_bell : Packet → Action Unit
process_bell p = do
  pitch ← lift (get_i32 p 4)
  duration ← lift (get_i32 p 5)
  emit (rang pitch duration)

unfoldable pub process_lost_window : Packet → Action Unit
process_lost_window p = do
  wid ← lift (get_u64 p 1)
  grabbed ← gets (λ s. s.pointer_grabbed)
  when (is_window grabbed wid) release_pointer_grab
  assign (λ s. record s { windows = remove_window s.windows wid })

unfoldable pub process_window_metadata : Packet → Action Unit
process_window_metadata p = do
  wid ← lift (get_u64 p 1)
  metadata ← lift (get_elem? p.main 2)
  with_window wid (λ window. apply_window_metadata wid window (parse metadata))

-- `encoding.rsplit(':').next()`
abbrev after_colon : Bytes → Bytes
after_colon s = elim (rsplit_once s b':') [ none ↦ s | some (before, after) ↦ after ]

-- winit takes 16 bits of the size, and a hotspot inside the image.
abbrev cursor_of : ℕ → ℕ → Bytes → ℕ → ℕ → Cursor
cursor_of w h rgba xhot yhot = record {
  rgba = rgba;
  width = min w (2 ^ 16 - 1);
  height = min h (2 ^ 16 - 1);
  hotspot_x = min xhot (w - 1) % 2 ^ 16;
  hotspot_y = min yhot (h - 1) % 2 ^ 16;
}

module _ (env : Env) where
  -- The first grab that the window takes.
  unfoldable pub grab_window : ℕ → Action Bool
  grab_window wid =
      if env.grabs wid confined
      then call wid (set_cursor_grab confined) >> pure true
      else if env.grabs wid locked
      then call wid (set_cursor_grab locked) >> pure true
      else pure false

  unfoldable pub grab_pointer : ℕ → Action Unit
  grab_pointer wid = with_window wid (λ window. do
    grabbed ← grab_window wid
    when grabbed (assign (λ s. record s { pointer_grabbed = some wid })))

  unfoldable pub process_pointer_grab : Packet → Action Unit
  process_pointer_grab p =
      if leb 2 (len p)
      then (do
        wid ← lift (get_u64 p 1)
        grabbed ← gets (λ s. s.pointer_grabbed)
        when (not (is_window grabbed wid)) (release_pointer_grab >> grab_pointer wid))
      else pure tt

  unfoldable pub process_raise_window : Packet → Action Unit
  process_raise_window p = do
    wid ← lift (get_u64 p 1)
    with_window wid (λ window. when (not (env.has_focus wid)) (call wid focus_window))

  -- The new window has the session's cursor, and the metadata of its packet.
  unfoldable pub open_window : ℕ → ℤ → ℤ → ℕ → ℕ → WindowMetadataUpdate → Bool → Action Unit
  open_window wid x y w h metadata override_redirect = do
    call wid (
        create (Option.get_or metadata.title []) x y (max w 1) (max h 1)
          (not override_redirect && Option.get_or metadata.decorations true)
          (not override_redirect))
    cursor ← gets (λ s. s.current_cursor)
    given cursor (λ c. call wid (set_cursor (some c)))
    apply_window_metadata wid
        (record {
          override_redirect = override_redirect;
          above = false;
          below = false;
          last_cursor = (pos 0, pos 0);
        })
        metadata
    when (not override_redirect) (send_window_map env wid x y w h)

  -- `apply_window_metadata` puts the window into the map.
  unfoldable pub process_new_common : Packet → Bool → Action Unit
  process_new_common p override_redirect = do
    wid ← lift (get_u64 p 1)
    x ← lift (get_i32 p 2)
    y ← lift (get_i32 p 3)
    w ← lift (get_u32 p 4)
    h ← lift (get_u32 p 5)
    metadata ← lift (get_elem? p.main 6)
    when (env.creates_window wid) (open_window wid x y w h (parse metadata) override_redirect)

  unfoldable pub process_window_icon : Packet → Action Unit
  process_window_icon p = do
    wid ← lift (get_u64 p 1)
    encoding ← lift (get_str p 4)
    when (bytes_eq encoding (codes "png")) (do
      (data', p') ← lift (get_bytes env.base64 p 5)
      given (env.decode_png_rgba data') (λ (icon : ℕ × ℕ × Bytes).
          when (env.is_icon icon.0 icon.1 icon.2)
            (with_window wid (λ window. call wid (set_window_icon icon.0 icon.1 icon.2)))))

  unfoldable pub use_cursor : Option Cursor → Action Unit
  use_cursor cursor = do
    windows ← gets (λ s. s.windows)
    call_each windows (set_cursor cursor)
    assign (λ s. record s { current_cursor = cursor })

  unfoldable pub process_cursor : Packet → Action Unit
  process_cursor p = if leb (len p) 2 then use_cursor none else (do
    encoding ← lift (get_str p 1)
    when (bytes_eq (after_colon encoding) (codes "png")) (do
      xhot ← lift (get_u32 p 6)
      yhot ← lift (get_u32 p 7)
      (data', p') ← lift (get_bytes env.base64 p 9)
      given (env.decode_png_rgba data') (λ (i : ℕ × ℕ × Bytes).
          when (env.is_cursor (cursor_of i.0 i.1 i.2 xhot yhot))
            (use_cursor (some (cursor_of i.0 i.1 i.2 xhot yhot))))))
