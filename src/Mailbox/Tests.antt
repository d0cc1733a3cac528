-- ===== src/Mailbox/Tests.antt =====
-- The mailbox on small inputs.
use aliro_actuator.Common.{
  ℕ, ◌≡◌, refl, List, [], ◌∷◌, some, true, false, length, get_elem?, ok, arith,
}
use aliro_actuator.Mailbox.{Mailbox, Initial, init, write, read, check_boundaries, splice}
use aliro_actuator.Mailbox.Laws.{write_lem, read-write, init-Found, Found, patched}
use aliro_actuator.Mailbox.Session.{
  MailboxSession, write_command, set_command, execute_commands, execute_commands_ok,
}

abbrev six : Mailbox
six = record {
  read_permission = true;
  write_permission = true;
  step_up_permission = false;
  index = [];
  data_set = true;
  content = 1 ∷ 2 ∷ 3 ∷ 4 ∷ 5 ∷ 6 ∷ [];
}

abbrev six_written : Mailbox
six_written = record six { content = 1 ∷ 2 ∷ 9 ∷ 8 ∷ 5 ∷ 6 ∷ [] }

write_lem_example :
    (length six_written.content ≡ 6)
    × ((k : ℕ) → get_elem? six_written.content k ≡ patched 2 (9 ∷ 8 ∷ []) six.content k)
unfolding write check_boundaries splice
write_lem_example = write_lem 2 (9 ∷ 8 ∷ []) six refl refl

read-write_example : read 2 2 six_written ≡ ok (9 ∷ 8 ∷ [])
unfolding write splice
read-write_example = read-write 2 (9 ∷ 8 ∷ []) six (omega arith) refl refl

abbrev two_parts : List Initial
two_parts =
    record { oui = 1 ∷ 2 ∷ 3 ∷ []; type = 4; content = 5 ∷ 6 ∷ [] }
    ∷ record { oui = 1 ∷ 2 ∷ 3 ∷ []; type = 5; content = 7 ∷ [] }
    ∷ []

init-Found_example :
    Found
      (init (some two_parts) 0 true true true).content
      (init (some two_parts) 0 true true true).index
      two_parts
init-Found_example = init-Found two_parts 0 true true true

abbrev two_commands : MailboxSession
two_commands = record {
  commands = write_command (0 ∷ 4 ∷ 9 ∷ 9 ∷ []) ∷ set_command (0 ∷ 1 ∷ 0 ∷ 3 ∷ 7 ∷ []) ∷ [];
  started = true;
}

execute_commands_ok_example :
    ((execute_commands two_commands six).1 ≡ ok tt)
    × (length (execute_commands two_commands six).0.content ≡ 6)
execute_commands_ok_example =
    execute_commands_ok two_commands six refl
      (omega arith, ((7, refl, omega arith, omega arith), tt))
