-- ===== src/Input.antt =====
-- kernel/src/userinput: the keyboard and the mouse.
pub mod Keyboard
pub mod Mouse
pub mod Packets
pub mod Screen
