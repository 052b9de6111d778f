-- ===== src/Windows/Tests.antt =====
-- Three windows, of which the second one comes to the front.
use amazing_os.Base.{
  ℕ, ◌≡◌, refl, ◌++◌, some, [], ◌∷◌, arith, false, ◌==◌, if◌then◌else◌, pos, negsuc,
}
use amazing_os.Windows.{Window, WindowManager, bring_to_front}
use amazing_os.Windows.Order.Front.{IsOrder, bring_to_front-IsOrder}

abbrev plain : ℕ → Window
plain next = record {
  id = pos 1;
  rect = record { x = pos 0; y = pos 0; w = pos 9; h = pos 9 };
  orig_rect = record { x = pos 0; y = pos 0; w = pos 9; h = pos 9 };
  is_maximized = false;
  is_minimized = false;
  title = [];
  bg_color = 0;
  is_dragging = false;
  drag_target_x = pos 0;
  drag_target_y = pos 0;
  next = next;
  buffer = 0;
  text_input = [];
  selected_item_idx = negsuc 0;
  finder_item_count = 0;
  finder_needs_reload = false;
  finder_list_view_mode = false;
  finder_editing_path = false;
}

abbrev three_windows : WindowManager
three_windows = record {
  windows = λ a. if a == 1 then plain 2 else if a == 2 then plain 3 else plain 0;
  window_list_head = 1;
  next_window_id = pos 4;
  active_window = 3;
  audio_wav_data = 0;
  audio_is_wav = false;
  freed = [];
}

three_windows-IsOrder : IsOrder three_windows (1 ∷ 2 ∷ 3 ∷ [])
three_windows-IsOrder = record {
  chain = (refl, (omega arith, (refl, (omega arith, (refl, (omega arith, refl))))));
  distinct = ((omega arith, (omega arith, tt)), ((omega arith, tt), (tt, tt)));
}

bring_to_front-IsOrder_example :
    (out : WindowManager) × (bring_to_front 3 2 three_windows ≡ some out)
    × IsOrder out (((1 ∷ []) ++ 3 ∷ []) ++ 2 ∷ [])
bring_to_front-IsOrder_example =
    bring_to_front-IsOrder 3 2 three_windows (1 ∷ []) (3 ∷ []) three_windows-IsOrder (omega arith)
