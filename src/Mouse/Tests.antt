-- ===== src/Mouse/Tests.antt =====
-- The theorem on mouse packets for the three bytes of a packet.
use staxus.Base.{ℕ, List, [], ◌∷◌}
use staxus.Mouse.{Mouse}

abbrev idle : Mouse
idle = record {
  mouse_id = 0;
  packet = 0 ∷ 0 ∷ 0 ∷ 0 ∷ [];
  packet_ptr = 0;
  mouse_x = 10;
  mouse_y = 10;
  mouse_buttons = 0;
}

abbrev three_bytes : List (ℕ × ℕ)
three_bytes = (0x21, 8) ∷ (0x21, 5) ∷ (0x21, 1) ∷ []
