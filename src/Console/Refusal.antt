-- ===== src/Console/Refusal.antt =====
-- The lines that the console (src/console.c) refuses.
use project_lucario.Base.{◌≡◌, refl, arith, Option, none, some, length, List}
use project_lucario.Machine.{Text}
use project_lucario.Core.{System}
use project_lucario.Console.Parsing.{CommandStatus, cmd_empty, parse_input}
use project_lucario.Console.Commands.{
  Terminal, Command, Complaint, Reply, refused, blank, obey, command_of, check_arguments, checked,
  on_parsed, console_line,
}

obey_refused :
    (c : Command) (t : Terminal) (args : List Text) (s : System) {complaint : Complaint}
    → (obey c t args s).0 ≡ refused complaint
    → (obey c t args s).1 ≡ s
unfolding obey
obey_refused c t args s h = ground arith

-- A line that is refused, for its command or for the number of its arguments, changes nothing.
console_line_refused :
    (t : Terminal) (input : Text) (s : System) {complaint : Complaint}
    → (console_line t input s).0 ≡ refused complaint
    → (console_line t input s).1 ≡ s
unfolding console_line
console_line_refused t input s {complaint} h = by_status (parse_input input).status h
  where
    by_check :
        (check : Option Complaint) (r : Reply × System)
        → (r.0 ≡ refused complaint → r.1 ≡ s)
        → (checked check r s).0 ≡ refused complaint
        → (checked check r s).1 ≡ s
    by_check none r same e = same e
    by_check (some _) r same e = refl

    by_status :
        (st : CommandStatus)
        → (elim st as (λ _. Reply × System) [
          | cmd_empty ↦ (blank, s)
          | _ ↦ on_parsed t (parse_input input) s
        ]).0
          ≡ refused complaint
        → (elim st as (λ _. Reply × System) [
          | cmd_empty ↦ (blank, s)
          | _ ↦ on_parsed t (parse_input input) s
        ]).1
          ≡ s
    by_status cmd_empty e = refl
    by_status _ e =
        let p = parse_input input in
        by_check (check_arguments (command_of p.command) (length p.args))
          (obey (command_of p.command) t p.args s) (obey_refused (command_of p.command) t p.args s)
          e
