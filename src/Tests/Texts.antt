-- ===== src/Tests/Texts.antt =====
-- The texts of blocks at concrete inputs.
use grippers.Prelude.{◌≡◌, refl, []}
use grippers.Status.{zero_status}
use grippers.Command.{GripperCommand, get, zero_command}
use grippers.Rendering.{status_text, command_text, append_bit, append_field, append_byte, decimal}
use grippers.Rendering.Fields.{fields}
use grippers.Rendering.StatusFields.{status_fields, fields-status_text}

fields-status_text_example : fields (status_text zero_status) ≡ status_fields zero_status
fields-status_text_example = fields-status_text zero_status

-- Two commands that differ in an action bit without a name, and render alike.
abbrev plain : GripperCommand
plain = record zero_command { action = record { value = 9 }; reserved_tail = [] }

abbrev odd : GripperCommand
odd = record plain { action = record { value = 11 } }

same_text : command_text plain ≡ command_text odd
unfolding command_text append_bit append_field append_byte decimal get
same_text = refl
