-- ===== src/Client/ConnectDialog/Order.antt =====
-- The order in which Tab moves over the form's controls.
use rust_xpra.Prelude.{ℕ, zero, suc, ◌+◌, ◌%◌, ◌≡◌, refl, ap, arith}
use rust_xpra.Prelude.Int.{pos, negsuc, ◌+ℤ◌}
use rust_xpra.Client.ConnectDialog.{
  ConnectDialog, Focus, on_protocol, on_host, on_port, on_username, on_password, on_cancel,
  on_connect, focus_index,
}
use rust_xpra.Client.ConnectDialog.Keys.{step, stepped}

stepped-back : (f : Focus) → stepped (negsuc 0) (stepped (pos 1) f) ≡ f
unfolding stepped ◌+ℤ◌
stepped-back on_protocol = refl
stepped-back on_host = refl
stepped-back on_port = refl
stepped-back on_username = refl
stepped-back on_password = refl
stepped-back on_cancel = refl
stepped-back on_connect = refl

stepped-forth : (f : Focus) → stepped (pos 1) (stepped (negsuc 0) f) ≡ f
unfolding stepped ◌+ℤ◌
stepped-forth on_protocol = refl
stepped-forth on_host = refl
stepped-forth on_port = refl
stepped-forth on_username = refl
stepped-forth on_password = refl
stepped-forth on_cancel = refl
stepped-forth on_connect = refl

-- Shift+Tab undoes Tab, and Tab undoes Shift+Tab.
pub step_inverse :
    (s : ConnectDialog)
    → (step (negsuc 0) (step (pos 1) s) ≡ s) × (step (pos 1) (step (negsuc 0) s) ≡ s)
unfolding step
step_inverse s = (
  ap (λ f. record s { focus = f }) (stepped-back s.focus),
  ap (λ f. record s { focus = f }) (stepped-forth s.focus),
)

abbrev pub tabs : ℕ → ConnectDialog → ConnectDialog
tabs zero s = s
tabs (suc n) s = step (pos 1) (tabs n s)

focus_index-stepped : (f : Focus) → focus_index (stepped (pos 1) f) ≡ (focus_index f + 1) % 7
unfolding stepped ◌+ℤ◌
focus_index-stepped on_protocol = refl
focus_index-stepped on_host = refl
focus_index-stepped on_port = refl
focus_index-stepped on_username = refl
focus_index-stepped on_password = refl
focus_index-stepped on_cancel = refl
focus_index-stepped on_connect = refl

focus_index_bound : (f : Focus) → focus_index f ≡ focus_index f % 7
focus_index_bound on_protocol = refl
focus_index_bound on_host = refl
focus_index_bound on_port = refl
focus_index_bound on_username = refl
focus_index_bound on_password = refl
focus_index_bound on_cancel = refl
focus_index_bound on_connect = refl

-- After `n` Tabs the focus is `n` places on in the cycle of the seven controls, so that each of them
-- is reached within six.
pub focus_index-tabs :
    (n : ℕ) (s : ConnectDialog) → focus_index (tabs n s).focus ≡ (focus_index s.focus + n) % 7
unfolding step
focus_index-tabs zero s = omega (arith, focus_index_bound s.focus)
focus_index-tabs (suc n) s =
    omega (arith, focus_index-stepped (tabs n s).focus, focus_index-tabs n s)
