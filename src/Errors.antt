-- ===== src/Errors.antt =====
-- Go error values. An error is the list of the causes in its `%w` chain; its text is left out.
use qnatter.Common.{ℕ, Bool, false, ◌||◌, List, [], ◌∷◌, ◌==◌}

-- The sentinel errors of the program and the two system errors that it asks for, and the errors
-- that it makes with no sentinel.
pub data Cause : Type 0 where
  mapping_changed keep_alive_failed target_closed local_address_changed : Cause
  no_server_available addr_not_avail no_dev no_forward_service : Cause
  missing_stun missing_keep_alive missing_upnp unsupported_method other : Cause

abbrev pub Error : Type 0
Error = List Cause

abbrev code : Cause → ℕ
code mapping_changed = 0
code keep_alive_failed = 1
code target_closed = 2
code local_address_changed = 3
code no_server_available = 4
code addr_not_avail = 5
code no_dev = 6
code no_forward_service = 7
code missing_stun = 8
code missing_keep_alive = 9
code missing_upnp = 10
code unsupported_method = 11
code other = 12

-- `errors.Is`
unfoldable pub errors_is : Error → Cause → Bool
errors_is [] target = false
errors_is (c ∷ err) target = code c == code target || errors_is err target
