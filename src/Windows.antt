-- ===== src/Windows.antt =====
-- The list of windows of Kernel/CrecentKernel/src/kernel/wm.cpp, with explicit pointers: `windows` is the
-- store, and the list goes through the links `next` in it, the window in front at its end. Walks along
-- the list run on fuel, one step more than there are windows. Drawing and events are left out.
pub mod Order
mod Tests
use amazing_os.Base.{
  ℕ, zero, suc, ◌+◌, Bool, true, false, not, ◌&&◌, ◌||◌, Option, none, some, List, [], ◌∷◌, ◌==◌,
  if◌then◌else◌, take, ℤ, pos, negsuc, ◌+ℤ◌, eq_ℤ,
}
use amazing_os.Fs.CString.{CString, char_at, str_starts_with}
use amazing_os.Display.{Rect}

pub record Window : Type 0 where
  pub id : ℤ
  pub rect : Rect
  pub orig_rect : Rect
  pub is_maximized : Bool
  pub is_minimized : Bool
  pub title : CString
  pub bg_color : ℕ
  pub is_dragging : Bool
  pub drag_target_x : ℤ
  pub drag_target_y : ℤ
  pub next : ℕ
  pub buffer : ℕ
  pub text_input : CString
  pub selected_item_idx : ℤ
  pub finder_item_count : ℕ
  pub finder_needs_reload : Bool
  pub finder_list_view_mode : Bool
  pub finder_editing_path : Bool

pub record WindowManager : Type 0 where
  pub windows : ℕ → Window
  pub window_list_head : ℕ
  pub next_window_id : ℤ
  pub active_window : ℕ
  pub audio_wav_data : ℕ
  pub audio_is_wav : Bool
  -- What `delete` and `kfree` got, the last first.
  pub freed : List ℕ

-- `Window::Window`; at most 63 bytes of the title are kept.
pub new_window : (id x y w h : ℤ) → CString → (color : ℕ) → Window
new_window id x y w h title color = record {
  id = id;
  rect = record { x = x; y = y; w = w; h = h };
  orig_rect = record { x = x; y = y; w = w; h = h };
  is_maximized = false;
  is_minimized = false;
  title = take 63 title;
  bg_color = color;
  is_dragging = false;
  drag_target_x = x;
  drag_target_y = y;
  next = 0;
  buffer = 0;
  text_input = [];
  selected_item_idx = negsuc 0;
  finder_item_count = 0;
  finder_needs_reload = true;
  finder_list_view_mode = false;
  finder_editing_path = false;
}

-- `Window::title_is`.
pub title_is : CString → CString → Bool
title_is [] [] = true
title_is [] (c ∷ s) = false
title_is (t ∷ title) [] = false
title_is (t ∷ title) (c ∷ s) = let rest = title_is title s in if t == c then rest else false

-- `Window::title_starts_with`; the byte that ends the title is no byte of `s`.
pub title_starts_with : CString → CString → Bool
title_starts_with title [] = true
title_starts_with [] (c ∷ s) = false
title_starts_with (t ∷ title) (c ∷ s) =
    let rest = title_starts_with title s in if t == c then rest else false

abbrev pub links : WindowManager → ℕ → ℕ
links s a = (s.windows a).next

abbrev pub set_next : (t n : ℕ) → WindowManager → WindowManager
set_next t n s = record s {
  windows = λ a. if a == t then record (s.windows t) { next = n } else s.windows a;
}

-- `while (tail && tail->next) tail = tail->next;`
pub find_tail : (fuel : ℕ) → (ℕ → ℕ) → ℕ → Option ℕ
find_tail zero next tail = none
find_tail (suc fuel) next tail =
    let rest = find_tail fuel next (next tail) in
    if tail == 0 || next tail == 0 then some tail else rest

-- `while (prev && prev->next != win) prev = prev->next;`
pub find_prev : (fuel : ℕ) → (ℕ → ℕ) → (prev win : ℕ) → Option ℕ
find_prev zero next prev win = none
find_prev (suc fuel) next prev win =
    let rest = find_prev fuel next (next prev) win in
    if prev == 0 || next prev == win then some prev else rest

-- The window is linked behind the tail, or becomes the head.
pub link_last : (fuel win : ℕ) → WindowManager → Option WindowManager
link_last fuel win s = elim (find_tail fuel (links s) s.window_list_head) [
  | none ↦ none
  | some tail ↦ some (
      set_next win 0
        (if tail == 0 then record s { window_list_head = win } else set_next tail win s))
]

-- `if (prev) prev->next = win->next;`
abbrev pub unlink_after : (prev win : ℕ) → WindowManager → WindowManager
unlink_after prev win s = if prev == 0 then s else set_next prev (links s win) s

pub bring_to_front : (fuel win : ℕ) → WindowManager → Option WindowManager
bring_to_front fuel win s =
    let head = s.window_list_head in
    if win == 0 || head == 0 || (win == head && links s win == 0)
    then some s
    else if win == head
    then link_last fuel win (record s { window_list_head = links s win })
    else (elim (find_prev fuel (links s) head win) [
      | none ↦ none
      | some prev ↦ link_last fuel win (unlink_after prev win s)
    ])

pub focus_window : (fuel win : ℕ) → WindowManager → Option WindowManager
focus_window fuel win s =
    if win == 0 || s.window_list_head == 0
    then some s
    else (elim (find_tail fuel (links s) s.window_list_head) [
      | none ↦ none
      | some tail ↦ if win == tail then some s else bring_to_front fuel win s
    ])

-- The end of `create_window`: the window that `new` put at `win` is linked behind the others.
pub link_new : (fuel win : ℕ) → Window → WindowManager → Option WindowManager
link_new fuel win made s =
    let stored = record s {
      windows = λ a. if a == win then made else s.windows a;
      next_window_id = s.next_window_id +ℤ pos 1;
    } in
    if s.window_list_head == 0
    then some (record stored { window_list_head = win })
    else (elim (find_tail fuel (links stored) s.window_list_head) [
      | none ↦ none
      | some tail ↦ some (set_next tail win stored)
    ])

pub get_window_by_id : (fuel : ℕ) → WindowManager → (w : ℕ) → (id : ℤ) → Option ℕ
get_window_by_id zero s w id = none
get_window_by_id (suc fuel) s w id =
    let rest = get_window_by_id fuel s (links s w) id in
    if w == 0 then some 0 else if eq_ℤ (s.windows w).id id then some w else rest

-- The search of `close_window`: the window with its predecessor, which is 0 at the head.
pub find_window : (fuel : ℕ) → WindowManager → (prev curr : ℕ) → (id : ℤ) → Option (ℕ × ℕ)
find_window zero s prev curr id = none
find_window (suc fuel) s prev curr id =
    let rest = find_window fuel s curr (links s curr) id in
    if curr == 0
    then some (prev, 0)
    else if eq_ℤ (s.windows curr).id id
    then some (prev, curr)
    else rest

abbrev audio_player : CString
audio_player =
    b'A' ∷ b'u' ∷ b'd' ∷ b'i' ∷ b'o' ∷ b' ' ∷ b'P' ∷ b'l' ∷ b'a' ∷ b'y' ∷ b'e' ∷ b'r' ∷ []

-- Without the stop of the sound hardware.
stop_audio : ℕ → WindowManager → WindowManager
stop_audio curr s =
    if title_starts_with (s.windows curr).title audio_player
    then record s {
      audio_wav_data = 0;
      audio_is_wav = false;
      freed = if s.audio_wav_data == 0 then s.freed else s.audio_wav_data ∷ s.freed;
    }
    else s

unlink_window : (prev curr : ℕ) → WindowManager → WindowManager
unlink_window prev curr s =
    if prev == 0
    then record s { window_list_head = links s curr }
    else set_next prev (links s curr) s

free_window : (curr : ℕ) → WindowManager → WindowManager
free_window curr s =
    let buffer = (s.windows curr).buffer in
    record s { freed = curr ∷ (if buffer == 0 then s.freed else buffer ∷ s.freed) }

-- The window in front becomes the active one where the active one was closed.
pub activate_top : (fuel curr : ℕ) → WindowManager → Option WindowManager
activate_top fuel curr s =
    if not (s.active_window == curr)
    then some s
    else (elim (find_tail fuel (links s) s.window_list_head) [
      | none ↦ none
      | some top ↦ some (record s { active_window = top })
    ])

pub close_window : (fuel : ℕ) → (id : ℤ) → WindowManager → Option WindowManager
close_window fuel id s =
    if s.window_list_head == 0 then some s else (elim (find_window fuel s 0 s.window_list_head id) [
      | none ↦ none
      | some (prev, curr) ↦
          let active = activate_top fuel curr (unlink_window prev curr (stop_audio curr s)) in
          if curr == 0
          then some s
          else (elim active [ none ↦ none | some after ↦ some (free_window curr after) ])
    ])
