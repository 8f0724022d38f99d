-- ===== src/Port/Crt.antt =====
-- The CRT controller alone behind the ports: its two registers are all that is there.
use alphix.Base.{ℕ, refl, ◌==◌, if◌then◌else◌}
use alphix.Port.{Bus, Crtc, reg_screen_ctrl, reg_screen_data}

pub record Device : Type 0 where
  pub selected : ℕ
  pub registers : ℕ → ℕ

abbrev device_out : ℕ → ℕ → Device → Device
device_out port v d =
    if port == reg_screen_ctrl
    then record d { selected = v }
    else if port == reg_screen_data
    then record d { registers = λ r. if r == d.selected then v else d.registers r }
    else d

abbrev pub bus : Bus
bus = record {
  State = Device;
  outb = device_out;
  inb = λ port d. (if port == reg_screen_data then d.registers d.selected else 0, d);
}

abbrev pub crtc : Crtc bus
crtc = record {
  selected = λ d. d.selected;
  register = λ d. d.registers;
  selected-outb_ctrl = λ i s. refl;
  register-outb_ctrl = λ i r s. refl;
  selected-outb_data = λ v s. refl;
  register-outb_data = λ v r s. refl;
  inb_data = λ s. refl;
  selected-inb_data = λ s. refl;
  register-inb_data = λ r s. refl;
}
