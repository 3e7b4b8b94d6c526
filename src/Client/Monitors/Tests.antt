-- ===== src/Client/Monitors/Tests.antt =====
-- The theorems about monitors at two screens, one left of the other.
use rust_xpra.Prelude.{◌≡◌, refl, true, false, some, none, List, [], ◌∷◌, codes, arith}
use rust_xpra.Prelude.Int.{pos, negsuc, ◌+ℤ◌, ◌-ℤ◌}
use rust_xpra.Client.Monitors.{
  MonitorInfo, Bounds, holds_point, sub_i32, relative_from, monitor_relative_position, rectangle,
  join, bounds_of, extent, both, size_of, total_display_size,
}
use rust_xpra.Client.Monitors.Layout.{
  IsOn, IsScreen, monitor_relative_position-IsOn, total_display_size-IsScreen,
}

abbrev screens : List MonitorInfo
screens =
    record {
      name = codes "DP-1";
      primary = true;
      x = pos 0;
      y = pos 0;
      width = 2560;
      height = 1440;
      refresh_rate_millihertz = some 60000;
    }
    ∷ record {
      name = codes "DP-2";
      primary = false;
      x = negsuc 1919;
      y = pos 100;
      width = 1920;
      height = 1080;
      refresh_rate_millihertz = none;
    }
    ∷ []

left_screen : monitor_relative_position screens (negsuc 9) (pos 100) ≡ some (1, pos 1910, pos 0)
unfolding monitor_relative_position relative_from holds_point sub_i32 ◌+ℤ◌ ◌-ℤ◌
left_screen = refl

monitor_relative_position-IsOn_example : IsOn screens (negsuc 9) (pos 100) 1 (pos 1910) (pos 0)
monitor_relative_position-IsOn_example =
    monitor_relative_position-IsOn screens 1 (negsuc 9) (pos 100) (pos 1910) (pos 0)
      (omega arith, omega arith, (omega arith, omega arith, tt)) left_screen

whole : total_display_size screens ≡ some (4480, 1440)
unfolding total_display_size size_of bounds_of join rectangle extent both ◌+ℤ◌ ◌-ℤ◌
whole = refl

total_display_size-IsScreen_case : (b : Bounds) × IsScreen screens 4480 1440 b
total_display_size-IsScreen_case = total_display_size-IsScreen screens 4480 1440 whole
